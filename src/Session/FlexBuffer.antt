-- ===== src/Session/FlexBuffer.antt =====
-- session/flex_buffer.h: a buffer with room in front of its data and behind it.
pub mod Laws
use my_test_module.Prelude.{
  ℕ, ◌+◌, ◌-◌, ◌*◌, ◌%◌, ◌^◌, Bool, List, [], ltb, leb, if◌then◌else◌, window, splice, replicate,
}

pub record FlexBuffer : Type 0 where
  pub capacity : ℕ
  pub offset : ℕ
  pub size : ℕ
  pub buffer : List ℕ

-- `size_t` subtraction and addition wrap.
abbrev pub sub_size : ℕ → ℕ → ℕ
sub_size a b = (a + 2 ^ 64 - b) % 2 ^ 64

abbrev pub add_size : ℕ → ℕ → ℕ
add_size a b = (a + b) % 2 ^ 64

abbrev pub padding_len : ℕ
padding_len = 128

-- FLEX_PADDING_LEN * 2 + IOEX_MAX_USER_DATA_LEN
abbrev pub max_len : ℕ
max_len = 128 * 2 + 2048

-- `flex_buffer(capacity, offset)`: the bytes of the fresh storage are those of `storage`.
unfoldable pub flex_buffer_init : List ℕ → ℕ → ℕ → FlexBuffer
flex_buffer_init storage capacity offset = record {
  capacity = capacity;
  offset = offset;
  size = 0;
  buffer = storage;
}

-- `flex_buffer_from(offset, src, len)` over fresh storage.
unfoldable pub flex_buffer_from : List ℕ → ℕ → List ℕ → ℕ → FlexBuffer
flex_buffer_from storage offset src len = record {
  capacity = add_size len offset;
  offset = offset;
  size = len;
  buffer = splice offset (window 0 len src) storage;
}

unfoldable pub flex_buffer_reset : FlexBuffer → ℕ → FlexBuffer
flex_buffer_reset buf offset = record buf { offset = offset; size = 0 }

unfoldable pub flex_buffer_available : FlexBuffer → ℕ
flex_buffer_available buf = sub_size (sub_size buf.capacity buf.offset) buf.size

-- the bytes from flex_buffer_ptr on, as many as flex_buffer_size says
abbrev pub contents : FlexBuffer → List ℕ
contents buf = window buf.offset buf.size buf.buffer

unfoldable pub flex_buffer_forward_offset : FlexBuffer → ℕ → FlexBuffer × ℕ
flex_buffer_forward_offset buf bytes =
    let n =
      if leb (add_size buf.offset bytes) buf.capacity
      then bytes
      else sub_size (sub_size buf.capacity buf.offset) 1 in
    (record buf { offset = add_size buf.offset n; size = sub_size buf.size n }, n)

unfoldable pub flex_buffer_backward_offset : FlexBuffer → ℕ → FlexBuffer × ℕ
flex_buffer_backward_offset buf bytes =
    let n = if leb bytes buf.offset then bytes else buf.offset in
    (record buf { offset = sub_size buf.offset n; size = add_size buf.size n }, n)

-- The copy starts at the first byte of both storages, whatever the offsets.
unfoldable pub flex_buffer_copy : FlexBuffer → FlexBuffer → FlexBuffer
flex_buffer_copy dest src =
    let room = sub_size dest.capacity dest.offset in
    let len = if ltb src.size room then src.size else room in
    record dest { buffer = splice 0 (window 0 len src.buffer) dest.buffer; size = len }

unfoldable pub flex_buffer_append2 : FlexBuffer → FlexBuffer → ℕ → FlexBuffer
flex_buffer_append2 dest src wanted =
    let available = flex_buffer_available dest in
    let len = if ltb wanted available then wanted else available in
    record dest {
      buffer =
          splice (add_size dest.offset dest.size) (window src.offset len src.buffer) dest.buffer;
      size = add_size dest.size len;
    }

unfoldable pub flex_buffer_append : FlexBuffer → FlexBuffer → FlexBuffer
flex_buffer_append dest src =
    let available = flex_buffer_available dest in
    let len = if ltb src.size available then src.size else available in
    record dest {
      buffer =
          splice (add_size dest.offset dest.size) (window src.offset len src.buffer) dest.buffer;
      size = add_size dest.size len;
    }

-- A write of `bytes` through flex_buffer_mutable_ptr.
unfoldable pub write_front : FlexBuffer → List ℕ → FlexBuffer
write_front buf bytes = record buf { buffer = splice buf.offset bytes buf.buffer }

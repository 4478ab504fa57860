-- ===== src/Session/FlexBuffer/Laws.antt =====
-- What the operations of session/flex_buffer.h do to the contents of a buffer.
use my_test_module.Prelude.{
  ℕ, ◌+◌, ◌-◌, ◌^◌, ◌≤◌, ◌<◌, min, ◌≡◌, refl, sym, ap, ◌∙◌, List, [], ◌++◌, length, take, drop,
  arith, window, splice, length-splice, take-take, drop-drop, drop-take, length-take, length-drop,
  window-splice, window-splice_front,
}
use my_test_module.Session.FlexBuffer.{
  FlexBuffer, contents, flex_buffer_available, flex_buffer_forward_offset,
  flex_buffer_backward_offset, flex_buffer_append2, flex_buffer_append, flex_buffer_reset,
  write_front,
}

-- The storage has `capacity` bytes, and the data lies inside it.
pub record IsValid (b : FlexBuffer) : Type 0 where
  pub storage : length b.buffer ≡ b.capacity
  pub inside : b.offset + b.size ≤ b.capacity
  pub addressable : b.capacity < 2 ^ 63

pub length-contents : (b : FlexBuffer) → IsValid b → length (contents b) ≡ b.size
length-contents b v =
    omega
      (arith, length-take b.size (drop b.offset b.buffer), length-drop b.offset b.buffer, v.storage)

pub available_lem :
    (b : FlexBuffer) → IsValid b → flex_buffer_available b ≡ b.capacity - b.offset - b.size
unfolding flex_buffer_available
available_lem b v = omega arith

module _ (b : FlexBuffer) (v : IsValid b) where
  forward-eq :
      (n : ℕ)
      → n ≤ b.size
      → flex_buffer_forward_offset b n ≡ (record b { offset = b.offset + n; size = b.size - n }, n)
  unfolding flex_buffer_forward_offset
  forward-eq n h = ground arith

  -- flex_buffer_forward_offset drops that many bytes from the front of the data of a valid buffer,
  -- if there are so many, and keeps it valid.
  pub forward_lem :
      (n : ℕ)
      → n ≤ b.size
      → let (b', moved) = flex_buffer_forward_offset b n in
        (moved ≡ n) × (contents b' ≡ drop n (contents b)) × (b'.size ≡ b.size - n) × IsValid b'
  forward_lem n h = rw (forward-eq n h) (
    refl,
    ap (take (b.size - n)) (sym (drop-drop b.offset n (b.offset + n) b.buffer refl))
        ∙ sym (drop-take n b.size (b.size - n) (drop b.offset b.buffer) (omega arith)),
    refl,
    record { storage = v.storage; inside = omega arith; addressable = v.addressable },
  )

  backward-eq :
      (n : ℕ)
      → n ≤ b.offset
      → flex_buffer_backward_offset b n ≡ (record b { offset = b.offset - n; size = b.size + n }, n)
  unfolding flex_buffer_backward_offset
  backward-eq n h = ground arith

  -- flex_buffer_backward_offset puts that many bytes in front of the data.
  pub backward_lem :
      (n : ℕ)
      → n ≤ b.offset
      → let (b', moved) = flex_buffer_backward_offset b n in
        (moved ≡ n) × (drop n (contents b') ≡ contents b) × (b'.size ≡ b.size + n) × IsValid b'
  backward_lem n h = rw (backward-eq n h) (
    refl,
    drop-take n (b.size + n) b.size (drop (b.offset - n) b.buffer) (omega arith)
        ∙ ap (take b.size) (drop-drop (b.offset - n) n b.offset b.buffer (omega arith)),
    refl,
    record { storage = v.storage; inside = omega arith; addressable = v.addressable },
  )

  -- what an append of `len` bytes of `src` leaves
  abbrev appended : FlexBuffer → ℕ → FlexBuffer
  appended src len = record b {
    buffer = splice (b.offset + b.size) (window src.offset len src.buffer) b.buffer;
    size = b.size + len;
  }

  appended_lem :
      (src : FlexBuffer) (len : ℕ)
      → IsValid src
      → len ≤ src.size
      → b.offset + b.size + len ≤ b.capacity
      → (contents (appended src len) ≡ contents b ++ take len (contents src))
        × IsValid (appended src len)
  appended_lem src len vs h room = (
    window-splice b.offset b.size (b.offset + b.size) (b.size + len)
          (window src.offset len src.buffer) b.buffer refl
          (omega (
            arith,
            length-take len (drop src.offset src.buffer),
            length-drop src.offset src.buffer,
            vs.storage,
          ))
          (omega (arith, v.storage))
        ∙ ap (λ t. contents b ++ t) (sym (take-take len src.size (drop src.offset src.buffer) h)),
    record {
      storage =
          length-splice (b.offset + b.size) (window src.offset len src.buffer) b.buffer ∙ v.storage;
      inside = omega arith;
      addressable = v.addressable;
    },
  )

  append2-eq :
      (src : FlexBuffer) (n : ℕ)
      → flex_buffer_append2 b src n ≡ appended src (min n (b.capacity - b.offset - b.size))
  unfolding flex_buffer_append2 flex_buffer_available
  append2-eq src n = ground arith

  -- flex_buffer_append2 adds the first bytes of a valid source to a valid buffer, as many as are
  -- asked for and fit, and keeps the buffer valid; no more are asked for than the source has.
  pub append2_lem :
      (src : FlexBuffer) (n : ℕ)
      → IsValid src
      → n ≤ src.size
      → let b' = flex_buffer_append2 b src n in
        (contents b' ≡ contents b ++ take (min n (b.capacity - b.offset - b.size)) (contents src))
        × IsValid b'
  append2_lem src n vs h =
      rw (append2-eq src n)
        (appended_lem src (min n (b.capacity - b.offset - b.size)) vs (omega arith) (omega arith))

  append-eq : (src : FlexBuffer) → flex_buffer_append b src ≡ flex_buffer_append2 b src src.size
  unfolding flex_buffer_append flex_buffer_append2
  append-eq src = refl

  -- Bytes that are written in front of the data of a valid buffer, into room that
  -- flex_buffer_backward_offset made for them, stand before the old contents, and the buffer stays
  -- valid; they must fit the room in front.
  pub write_front-backward :
      (bytes : List ℕ)
      → length bytes ≤ b.offset
      → let b' = write_front (flex_buffer_backward_offset b (length bytes)).0 bytes in
        (contents b' ≡ bytes ++ contents b) × (b'.size ≡ length bytes + b.size) × IsValid b'
  unfolding write_front
  write_front-backward bytes h = rw (backward-eq (length bytes) h) (
    window-splice_front (b.offset - length bytes) (b.size + length bytes) b.size b.offset bytes
        b.buffer (omega arith) (omega arith) (omega (arith, v.storage)),
    omega arith,
    record {
      storage = length-splice (b.offset - length bytes) bytes b.buffer ∙ v.storage;
      inside = omega arith;
      addressable = v.addressable;
    },
  )

  -- An append into enough room.
  pub append2_fits :
      (src : FlexBuffer) (n : ℕ)
      → IsValid src
      → n ≤ src.size
      → b.offset + b.size + n ≤ b.capacity
      → let b' = flex_buffer_append2 b src n in
        (contents b' ≡ contents b ++ take n (contents src))
        × IsValid b'
        × (b'.size ≡ b.size + n)
        × (b'.offset ≡ b.offset)
        × (b'.capacity ≡ b.capacity)
  append2_fits src n vs h fits =
      let e : min n (b.capacity - b.offset - b.size) ≡ n = omega arith in
      let (same, valid) = appended_lem src n vs h fits in
      rw (append2-eq src n, e) (same, valid, refl, refl, refl)

  pub append_fits :
      (src : FlexBuffer)
      → IsValid src
      → b.offset + b.size + src.size ≤ b.capacity
      → let b' = flex_buffer_append b src in
        (contents b' ≡ contents b ++ contents src)
        × IsValid b'
        × (b'.size ≡ b.size + src.size)
        × (b'.offset ≡ b.offset)
        × (b'.capacity ≡ b.capacity)
  append_fits src vs fits =
      let (same, valid, size, offset, capacity) = append2_fits src src.size vs (omega arith) fits in
      let e = take-take src.size src.size (drop src.offset src.buffer) (omega arith) in
      rw (append-eq src) (same ∙ ap (λ t. contents b ++ t) e, valid, size, offset, capacity)

pub reset_lem :
    (b : FlexBuffer) (offset : ℕ)
    → IsValid b
    → offset ≤ b.capacity
    → (contents (flex_buffer_reset b offset) ≡ []) × IsValid (flex_buffer_reset b offset)
unfolding flex_buffer_reset
reset_lem b offset v h =
    (refl, record { storage = v.storage; inside = omega arith; addressable = v.addressable })

-- ===== src/Session/Reassembly.antt =====
-- multiplex_handler_notify_data of session/multiplex_handler.c: packets out of a byte stream.
-- `deliver` is what notify_packet does with the bytes of one packet. The byte swaps that it makes in
-- `incomplete_buf` are gone with the reset that follows it.
pub mod Fill
pub mod Frames
pub mod Rounds
pub mod Join
pub mod Stream
pub mod Chunks
use my_test_module.Prelude.{ℕ, zero, suc, ◌+◌, ◌-◌, List, ltb, ◌==◌, if◌then◌else◌}
use my_test_module.Session.FlexBuffer.{
  FlexBuffer, add_size, sub_size, padding_len, contents, flex_buffer_append, flex_buffer_append2,
  flex_buffer_forward_offset, flex_buffer_reset,
}
use my_test_module.Session.Packet.{head_len, packet_len}

-- Bytes move from `buf` until `inc` holds `need` of them.
unfoldable pub fill : ℕ → FlexBuffer → FlexBuffer → FlexBuffer × FlexBuffer
fill need inc buf =
    if ltb inc.size need
    then (
      flex_buffer_append2 inc buf (need - inc.size),
      (flex_buffer_forward_offset buf (need - inc.size)).0,
    )
    else (inc, buf)

-- What one round of the loop leaves: the function returns, or it has a whole packet.
pub data Round : Type 0 where
  wait : FlexBuffer → Round
  whole : FlexBuffer → FlexBuffer → Round

-- the round once the header is complete
unfoldable pub round_payload : FlexBuffer → FlexBuffer → Round
round_payload inc buf =
    let need = packet_len (contents inc) in
    if ltb (add_size inc.size buf.size) need
    then wait (flex_buffer_append inc buf)
    else let (inc', buf') = fill need inc buf in whole inc' buf'

unfoldable pub round : FlexBuffer → FlexBuffer → Round
round inc buf =
    if ltb (add_size inc.size buf.size) head_len
    then wait (flex_buffer_append inc buf)
    else let (inc', buf') = fill head_len inc buf in round_payload inc' buf'

module _ {H : Type 0} (deliver : H → List ℕ → H) where
  unfoldable pub notify_loop : ℕ → H → FlexBuffer → FlexBuffer → H × FlexBuffer
  notify_loop zero h inc buf = (h, inc)
  notify_loop (suc fuel) h inc buf = if buf.size == 0 then (h, inc) else elim (round inc buf) [
    | wait inc' ↦ (h, inc')
    | whole inc' buf' ↦
        notify_loop fuel (deliver h (contents inc')) (flex_buffer_reset inc' padding_len) buf'
  ]

  -- Every round takes a byte at least, so the size of `buf` bounds the rounds.
  unfoldable pub notify_data : H → FlexBuffer → FlexBuffer → H × FlexBuffer
  notify_data h inc buf = notify_loop buf.size h inc buf

-- ===== src/Session/Multiplex/Wire.antt =====
-- What multiplex_handler_send_packet writes, multiplex_handler_notify_packet reads.
use my_test_module.Prelude.{
  ℕ, ◌+◌, ◌≤◌, ◌≡◌, sym, ap, ◌∙◌, List, ◌++◌, arith, length, drop, length-append, drop-append,
  ==_of_eq, ltb_of_le, length-replicate, Option, [], ◌∷◌,
}
use mathlib.Core.Path.{ap₂}
use my_test_module.Prelude.Returns.{value}
use my_test_module.Session.FlexBuffer.{FlexBuffer, contents, flex_buffer_init}
use my_test_module.Session.FlexBuffer.Laws.{write_front-backward, length-contents}
use my_test_module.Session.FlexBuffer
use my_test_module.Session.Packet.{
  ProtocolBuffer, header_bytes, read_header, Fits, length-header_bytes, read_header-header_bytes,
}
use my_test_module.Session.Channels.{Timeval}
use my_test_module.Session.Multiplex.{
  MultiplexHandler, Env, packet_bytes, blank_buffer, buffer_of, send_packet,
}
use my_test_module.Session.Multiplex.Receive.{route, notify_packet}

-- The header of a packet from the channel `from` to the channel `to` of the peer.
abbrev pub header : ℕ → ℕ → ℕ → ℕ → FlexBuffer → ProtocolBuffer
header kind option from to buf = record {
  kind = kind;
  option = option;
  local_channel_id = to;
  remote_channel_id = from;
  payload_len = buf.size;
}

-- The payload can be sent: it has room for the header in front.
pub record Sendable (buf : FlexBuffer) : Type 0 where
  pub valid : FlexBuffer.Laws.IsValid buf
  pub padded : 8 ≤ buf.offset

-- a packet whose length is what its header says
route_of_length :
    (env : Env) (now : Timeval) (h : MultiplexHandler) (bytes : List ℕ)
    → length bytes ≡ (read_header bytes).payload_len + 8
    → notify_packet env now h bytes ≡ route env now h (read_header bytes) (drop 8 bytes)
unfolding notify_packet
route_of_length env now h bytes e = rw (
  ltb_of_le (length bytes) 8 (omega arith),
  ==_of_eq (length bytes) ((read_header bytes).payload_len + 8) e,
)

module _ (kind option from to : ℕ) (buf : FlexBuffer) (s : Sendable buf) where
  pub bytes-eq :
      packet_bytes kind option from to buf
      ≡ header_bytes (header kind option from to buf) ++ contents buf
  unfolding packet_bytes
  bytes-eq =
      let pb = header kind option from to buf in
      rw (← length-header_bytes pb)
        (write_front-backward buf s.valid (header_bytes pb)
          (omega (arith, length-header_bytes pb, s.padded))).0

  -- What is sent from one channel to another of the peer, with room for the header in front of the
  -- payload and fields that fit the header, the peer routes to that channel with the sender's id,
  -- the kind, the option and the payload unchanged.
  pub notify_packet-packet_bytes :
      (env : Env) (now : Timeval) (h : MultiplexHandler)
      → Fits (header kind option from to buf)
      → notify_packet env now h (packet_bytes kind option from to buf)
        ≡ route env now h (header kind option from to buf) (contents buf)
  notify_packet-packet_bytes env now h f =
      let pb = header kind option from to buf in
      let size : length (header_bytes pb ++ contents buf) ≡ buf.size + 8 = omega (
        arith,
        length-append (header_bytes pb) (contents buf),
        length-header_bytes pb,
        length-contents buf s.valid,
      ) in
      let back = read_header-header_bytes pb (contents buf) f in
      let payload : drop 8 (header_bytes pb ++ contents buf) ≡ contents buf =
        ap (λ n. drop n (header_bytes pb ++ contents buf)) (sym (length-header_bytes pb))
        ∙ drop-append (header_bytes pb) (contents buf) in
      ap (notify_packet env now h) bytes-eq
      ∙ route_of_length env now h (header_bytes pb ++ contents buf)
          (size ∙ ap (λ (p : ProtocolBuffer). p.payload_len + 8) (sym back))
      ∙ ap₂ (route env now h) back payload

-- `flex_buffer(FLEX_PADDING_LEN, FLEX_PADDING_LEN)` is empty and has room for the header.
pub blank-Sendable : Sendable blank_buffer
unfolding flex_buffer_init
blank-Sendable = record {
  valid = record {
    storage = length-replicate {A = ℕ} 128 0;
    inside = omega arith;
    addressable = omega arith;
  };
  padded = omega arith;
}

-- The transport takes whatever is written.
abbrev pub Delivers : Env → Type 0
Delivers env = (sent : List (List ℕ)) (bytes : List ℕ) → (n : ℕ) × (env.write sent bytes ≡ value n)

pub send_packet_lem :
    (env : Env) (h : MultiplexHandler) (kind option from to : ℕ) (buf : Option FlexBuffer)
    → Delivers env
    → send_packet env h kind option from to buf ≡ (
      record h { outbox = packet_bytes kind option from to (buffer_of buf) ∷ h.outbox },
      value (buffer_of buf).size,
    )
unfolding send_packet
send_packet_lem env h kind option from to buf d =
    rw (d h.outbox (packet_bytes kind option from to (buffer_of buf))).1

-- what was written last
abbrev pub last_sent : MultiplexHandler → List ℕ
last_sent h = elim h.outbox [ [] ↦ [] | bytes ∷ _ ↦ bytes ]

-- ===== src/Session/Multiplex/Stream.antt =====
-- What one handler of session/multiplex_handler.c sends over a reliable stream, the other one routes.
use my_test_module.Prelude.{
  ℕ, ◌+◌, ◌≤◌, ◌≡◌, refl, sym, ap, ◌∙◌, List, [], ◌∷◌, map, arith, All, length, length-append,
}
use mathlib.Core.List.{foldl}
use my_test_module.Session.FlexBuffer.{FlexBuffer, contents}
use my_test_module.Session.FlexBuffer
use my_test_module.Session.FlexBuffer.Laws.{length-contents}
use my_test_module.Session.Packet.{
  Fits, header_bytes, packet_len, length-header_bytes, packet_len-header_bytes,
}
use my_test_module.Session.Channels.{Timeval}
use my_test_module.Session.Reassembly.Rounds.{Ready}
use my_test_module.Session.Reassembly.Chunks.{feed, all_bytes, stream_of, IsPacket, reassembly}
use my_test_module.Session.Multiplex.{MultiplexHandler, Env, packet_bytes}
use my_test_module.Session.Multiplex.Receive.{route, notify_packet}
use my_test_module.Session.Multiplex.Wire.{header, Sendable, bytes-eq, notify_packet-packet_bytes}

-- the arguments of one call of multiplex_handler_send_packet
pub record Call : Type 0 where
  pub kind : ℕ
  pub option : ℕ
  pub from : ℕ
  pub to : ℕ
  pub payload : FlexBuffer

abbrev pub bytes_of : Call → List ℕ
bytes_of c = packet_bytes c.kind c.option c.from c.to c.payload

-- Its packet can be sent, and fits the buffer of the other side.
pub record IsCall (limit : ℕ) (c : Call) : Type 0 where
  pub sendable : Sendable c.payload
  pub fits : Fits (header c.kind c.option c.from c.to c.payload)
  pub bounded : c.payload.size + 8 ≤ limit

abbrev pub routed : Env → Timeval → MultiplexHandler → Call → MultiplexHandler
routed env now h c =
    route env now h (header c.kind c.option c.from c.to c.payload) (contents c.payload)

bytes_of-IsPacket : (limit : ℕ) (c : Call) → IsCall limit c → IsPacket limit (bytes_of c)
bytes_of-IsPacket limit c k =
    let pb = header c.kind c.option c.from c.to c.payload in
    let same = bytes-eq c.kind c.option c.from c.to c.payload k.sendable in
    let size : length (bytes_of c) ≡ c.payload.size + 8 =
      ap length same
      ∙ omega (
        arith,
        length-append (header_bytes pb) (contents c.payload),
        length-header_bytes pb,
        length-contents c.payload k.sendable.valid,
      ) in
    record {
      headed = omega (arith, size);
      exact =
          ap packet_len same
          ∙ packet_len-header_bytes pb (contents c.payload) k.fits.payload
          ∙ sym size;
      bounded = omega (arith, size, k.bounded);
    }

packets-IsPacket :
    (limit : ℕ) (calls : List Call)
    → All (IsCall limit) calls
    → All (IsPacket limit) (map bytes_of calls)
packets-IsPacket limit [] all = tt
packets-IsPacket limit (c ∷ calls) (k, all) =
    (bytes_of-IsPacket limit c k, packets-IsPacket limit calls all)

-- the packets, one after the other
notified :
    (env : Env) (now : Timeval) (limit : ℕ) (h : MultiplexHandler) (calls : List Call)
    → All (IsCall limit) calls
    → foldl (notify_packet env now) h (map bytes_of calls) ≡ foldl (routed env now) h calls
notified env now limit h [] all = refl
notified env now limit h (c ∷ calls) (k, all) =
    ap (λ g. foldl (notify_packet env now) g (map bytes_of calls))
      (notify_packet-packet_bytes c.kind c.option c.from c.to c.payload k.sendable env now h k.fits)
    ∙ notified env now limit (routed env now h c) calls all

-- The packets that send_packet makes, each with room for its header, fields that fit it and a
-- length within the room of the other side's incomplete buffer, sent as one byte stream and
-- received in whatever valid pieces, are routed one after the other with their channels, kind,
-- option and payload unchanged; nothing is left in the incomplete buffer, which is ready for the
-- next piece.
pub stream_lem :
    (env : Env) (now : Timeval) (limit : ℕ) (h : MultiplexHandler) (inc : FlexBuffer)
    (cs : List FlexBuffer) (calls : List Call)
    → 8 ≤ limit
    → Ready limit inc
    → contents inc ≡ []
    → All FlexBuffer.Laws.IsValid cs
    → All (IsCall limit) calls
    → all_bytes cs ≡ stream_of (map bytes_of calls)
    → let (h', inc') = feed (notify_packet env now) h inc cs in
      (h' ≡ foldl (routed env now) h calls) × (contents inc' ≡ []) × Ready limit inc'
stream_lem env now limit h inc cs calls wide ready blank valid k e =
    let (state, left, next) =
      reassembly (notify_packet env now) limit wide h inc cs (map bytes_of calls) ready blank valid
        (packets-IsPacket limit calls k) e in
    (state ∙ notified env now limit h calls k, left, next)

-- ===== src/Tests/Sent.antt =====
-- Two packets that one peer of session/multiplex_handler.c sends, read by the other.
use my_test_module.Prelude.{◌≡◌, refl, List, [], ◌∷◌, arith, All, map}
use mathlib.Core.List.{foldl}
use my_test_module.Session.FlexBuffer
use my_test_module.Session.FlexBuffer.{FlexBuffer, contents}
use my_test_module.Session.Packet.{header_bytes}
use my_test_module.Session.Reassembly.Rounds.{Ready}
use my_test_module.Session.Reassembly.Chunks.{feed, all_bytes, stream_of}
use my_test_module.Session.Multiplex.Receive.{notify_packet}
use my_test_module.Session.Multiplex.Stream.{Call, bytes_of, IsCall, routed, stream_lem}
use my_test_module.Session.Multiplex.Wire.{bytes-eq}
use my_test_module.Tests.Stream.{four, four-IsValid, piece, blank, blank-Ready}
use my_test_module.Tests.Peers.{env, now, busy}

-- data for the channel 1, then a request to pause it
abbrev calls : List Call
calls =
    record { kind = 3; option = 0; from = 300; to = 1; payload = four }
    ∷ record { kind = 5; option = 0; from = 300; to = 1; payload = record four { size = 0 } }
    ∷ []

abbrev pieces : List FlexBuffer
pieces =
    piece (3 ∷ 0 ∷ 0 ∷ 1 ∷ 1 ∷ [])
    ∷ piece (44 ∷ 0 ∷ 4 ∷ 1 ∷ 2 ∷ 3 ∷ 4 ∷ 5 ∷ 0 ∷ 0 ∷ 1 ∷ 1 ∷ 44 ∷ 0 ∷ 0 ∷ [])
    ∷ []

pieces-IsValid : All FlexBuffer.Laws.IsValid pieces
pieces-IsValid = (
  record { storage = refl; inside = omega arith; addressable = omega arith },
  (record { storage = refl; inside = omega arith; addressable = omega arith }, tt),
)

calls-IsCall : All (IsCall 20) calls
calls-IsCall = (
  record {
    sendable = record { valid = four-IsValid; padded = omega arith };
    fits = record {
      kind = omega arith;
      option = omega arith;
      local = omega arith;
      remote = omega arith;
      payload = omega arith;
    };
    bounded = omega arith;
  },
  (
    record {
      sendable = record {
        valid = record { storage = refl; inside = omega arith; addressable = omega arith };
        padded = omega arith;
      };
      fits = record {
        kind = omega arith;
        option = omega arith;
        local = omega arith;
        remote = omega arith;
        payload = omega arith;
      };
      bounded = omega arith;
    },
    tt,
  ),
)

sent : all_bytes pieces ≡ stream_of (map bytes_of calls)
unfolding header_bytes
sent =
    rw
      (
        bytes-eq 3 0 300 1 four calls-IsCall.0.sendable,
        bytes-eq 5 0 300 1 (record four { size = 0 }) calls-IsCall.1.0.sendable,
      )
      refl

stream_lem_example :
    let (h', rest) = feed (notify_packet env now) busy blank pieces in
    (h' ≡ foldl (routed env now) busy calls) × (contents rest ≡ []) × Ready 20 rest
stream_lem_example =
    stream_lem env now 20 busy blank pieces calls (omega arith) blank-Ready refl pieces-IsValid
      calls-IsCall sent

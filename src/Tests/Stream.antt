-- ===== src/Tests/Stream.antt =====
-- session/flex_buffer.h and the packets of session/multiplex_handler.c on a stream of two packets.
use my_test_module.Prelude.{ℕ, ◌≡◌, refl, List, [], ◌∷◌, ◌++◌, arith, inl, length, replicate, All}
use my_test_module.Session.FlexBuffer.{FlexBuffer, contents}
use my_test_module.Session.FlexBuffer.Laws.{IsValid}
use my_test_module.Session.Packet.{ProtocolBuffer}
use my_test_module.Session.Reassembly.Rounds.{Ready}
use my_test_module.Session.Reassembly.Chunks.{feed, IsPacket, reassembly}

-- 16 bytes with 4 of data in the middle
abbrev pub four : FlexBuffer
four = record {
  capacity = 16;
  offset = 8;
  size = 4;
  buffer = replicate 8 0 ++ (1 ∷ 2 ∷ 3 ∷ 4 ∷ replicate 4 0);
}

pub four-IsValid : IsValid four
four-IsValid = record { storage = refl; inside = omega arith; addressable = omega arith }

abbrev data_header : ProtocolBuffer
data_header = record {
  kind = 3;
  option = 0;
  local_channel_id = 300;
  remote_channel_id = 2;
  payload_len = 1;
}

abbrev first : List ℕ
first = 3 ∷ 0 ∷ 0 ∷ 5 ∷ 0 ∷ 6 ∷ 0 ∷ 1 ∷ 42 ∷ []

abbrev second : List ℕ
second = 4 ∷ 0 ∷ 0 ∷ 5 ∷ 0 ∷ 6 ∷ 0 ∷ 0 ∷ []

abbrev pub piece : List ℕ → FlexBuffer
piece bytes = record { capacity = length bytes; offset = 0; size = length bytes; buffer = bytes }

-- the packets arrive in pieces of 3, 10 and 4 bytes
abbrev pieces : List FlexBuffer
pieces =
    piece (3 ∷ 0 ∷ 0 ∷ [])
    ∷ piece (5 ∷ 0 ∷ 6 ∷ 0 ∷ 1 ∷ 42 ∷ 4 ∷ 0 ∷ 0 ∷ 5 ∷ [])
    ∷ piece (0 ∷ 6 ∷ 0 ∷ 0 ∷ [])
    ∷ []

abbrev pub blank : FlexBuffer
blank = record { capacity = 148; offset = 128; size = 0; buffer = replicate 148 0 }

abbrev collect : List (List ℕ) → List ℕ → List (List ℕ)
collect packets p = p ∷ packets

pub blank-Ready : Ready 20 blank
blank-Ready = record {
  valid = record { storage = refl; inside = omega arith; addressable = omega arith };
  front = refl;
  roomy = omega arith;
  part = inl (omega arith);
}

pieces-IsValid : All IsValid pieces
pieces-IsValid = (
  record { storage = refl; inside = omega arith; addressable = omega arith },
  (
    record { storage = refl; inside = omega arith; addressable = omega arith },
    (record { storage = refl; inside = omega arith; addressable = omega arith }, tt),
  ),
)

packets-IsPacket : All (IsPacket 20) (first ∷ second ∷ [])
packets-IsPacket = (
  record { headed = omega arith; exact = refl; bounded = omega arith },
  (record { headed = omega arith; exact = refl; bounded = omega arith }, tt),
)

reassembly_example :
    let (packets, rest) = feed collect [] blank pieces in
    (packets ≡ second ∷ first ∷ []) × (contents rest ≡ []) × Ready 20 rest
reassembly_example =
    reassembly collect 20 (omega arith) [] blank pieces (first ∷ second ∷ []) blank-Ready refl
      pieces-IsValid packets-IsPacket refl

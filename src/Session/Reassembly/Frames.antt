-- ===== src/Session/Reassembly/Frames.antt =====
-- The packets in a byte stream: what multiplex_handler_notify_data is to find.
use my_test_module.Prelude.{
  ℕ, zero, suc, ◌<◌, ◌≤◌, ◌≡◌, refl, List, [], ◌∷◌, ltb, lt→ltb, ltb_of_le, ◌⊎◌, inl, inr,
  if◌then◌else◌, length, take, drop,
}
use my_test_module.Session.Packet.{packet_len}

-- The packets at the front of a byte stream, and the bytes behind the last whole one.
abbrev pub Frames : Type 0
Frames = List (List ℕ) × List ℕ

unfoldable pub deframe : ℕ → List ℕ → Frames
deframe zero bytes = ([], bytes)
deframe (suc fuel) bytes =
    let (packets, rest) = deframe fuel (drop (packet_len bytes) bytes) in
    if ltb (length bytes) 8
    then ([], bytes)
    else if ltb (length bytes) (packet_len bytes)
    then ([], bytes)
    else (take (packet_len bytes) bytes ∷ packets, rest)

-- The bytes of a packet that is not whole yet.
abbrev pub Partial : List ℕ → Type 0
Partial bytes = (length bytes < 8) ⊎ ((8 ≤ length bytes) × (length bytes < packet_len bytes))

-- No packet that the stream announces is longer than `limit`.
abbrev pub Bounded : ℕ → ℕ → List ℕ → Type 0
Bounded limit zero bytes = Unit
Bounded limit (suc fuel) bytes =
    (8 ≤ length bytes → packet_len bytes ≤ limit)
    × (8 ≤ length bytes
        → packet_len bytes ≤ length bytes
        → Bounded limit fuel (drop (packet_len bytes) bytes))

pub deframe-Partial : (fuel : ℕ) (bytes : List ℕ) → Partial bytes → deframe fuel bytes ≡ ([], bytes)
unfolding deframe
deframe-Partial zero bytes p = refl
deframe-Partial (suc fuel) bytes (inl short) = rw (lt→ltb _ _ short)
deframe-Partial (suc fuel) bytes (inr (long, short)) =
    rw (ltb_of_le (length bytes) 8 long, lt→ltb _ _ short)

pub deframe-whole :
    (fuel : ℕ) (bytes : List ℕ)
    → 8 ≤ length bytes
    → packet_len bytes ≤ length bytes
    → deframe (suc fuel) bytes ≡ (
        let (packets, rest) = deframe fuel (drop (packet_len bytes) bytes) in
        (take (packet_len bytes) bytes ∷ packets, rest))
unfolding deframe
deframe-whole fuel bytes long enough =
    rw (ltb_of_le (length bytes) 8 long, ltb_of_le (length bytes) (packet_len bytes) enough)

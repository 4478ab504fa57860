-- ===== src/Session/Reassembly/Stream.antt =====
-- multiplex_handler_notify_data against the division of a byte stream into packets.
use my_test_module.Prelude.{
  ℕ, zero, suc, ◌≤◌, ◌≡◌, refl, ap, ◌∙◌, List, [], ◌++◌, arith, ==_of_eq, ==_of_ne, inl, length,
  take, drop, length-drop,
}
use mathlib.Core.List.{foldl, append-nil}
use native.Mathlib.Decide.{ℕ_discrete}
use my_test_module.Session.FlexBuffer.{FlexBuffer, contents, padding_len, flex_buffer_reset}
use my_test_module.Session.FlexBuffer.Laws.{IsValid, reset_lem}
use my_test_module.Session.Packet.{packet_len}
use my_test_module.Session.Reassembly.{Round, wait, whole, round, notify_loop, notify_data}
use my_test_module.Session.Reassembly.Frames.{
  Frames, deframe, Bounded, deframe-Partial, deframe-whole,
}
use my_test_module.Session.Reassembly.Rounds.{Ready, Rounded, round_lem}

Bounded-first :
    (limit fuel : ℕ) (bytes : List ℕ)
    → Bounded limit fuel bytes
    → length bytes ≤ fuel
    → 8 ≤ length bytes
    → packet_len bytes ≤ limit
Bounded-first limit zero bytes b h long = absurd (omega arith)
Bounded-first limit (suc fuel) bytes b h long = b.0 long

module _ {H : Type 0} (deliver : H → List ℕ → H) (limit : ℕ) where
  -- What a call did, said by the packets of the bytes it had.
  abbrev pub Delivered : H → Frames → H × FlexBuffer → Type 0
  Delivered h (packets, rest) (h', inc') =
      (h' ≡ foldl deliver h packets) × (contents inc' ≡ rest) × Ready limit inc'

  module _ (wide : 8 ≤ limit) where
    -- the loop's test fails
    drained :
        (h : H) (inc buf : FlexBuffer) (g : ℕ)
        → Ready limit inc
        → IsValid buf
        → buf.size ≡ 0
        → Delivered h (deframe g (contents inc ++ contents buf)) (h, inc)
    drained h inc buf g r vb e =
        let nothing : contents buf ≡ [] = ap (λ n. take n (drop buf.offset buf.buffer)) e in
        let all : contents inc ++ contents buf ≡ contents inc =
          ap (λ t. contents inc ++ t) nothing ∙ append-nil (contents inc) in
        rw (all, deframe-Partial g (contents inc) r.part) (refl, refl, r)

    after_round :
        (fuel : ℕ) (h : H) (inc buf : FlexBuffer) (g : ℕ) (r : Round)
        → Rounded limit inc buf r
        → length (contents inc ++ contents buf) ≤ g
        → ((h : H) (inc buf : FlexBuffer) (g : ℕ)
            → Ready limit inc
            → IsValid buf
            → buf.size ≤ fuel
            → length (contents inc ++ contents buf) ≤ g
            → Bounded limit g (contents inc ++ contents buf)
            → Delivered h
                (deframe g (contents inc ++ contents buf))
                (notify_loop deliver fuel h inc buf))
        → Bounded limit g (contents inc ++ contents buf)
        → buf.size ≤ suc fuel
        → Delivered h (deframe g (contents inc ++ contents buf)) (elim r [
          | wait inc' ↦ (h, inc')
          | whole inc' buf' ↦
              notify_loop deliver fuel
                (deliver h (contents inc'))
                (flex_buffer_reset inc' padding_len)
                buf'
        ])
    unfolding flex_buffer_reset
    after_round fuel h inc buf g (wait inc') (same, ready) size ih b le =
        rw (deframe-Partial g (contents inc ++ contents buf) (rw same at ready.part))
          (refl, same, ready)
    after_round fuel h inc buf zero (whole inc' buf') q size ih b le = absurd (omega (arith, q.0))
    after_round fuel h inc buf (suc g) (whole inc' buf')
          (long, enough, front, back, vi, vb, less, roomy, top) size ih b le =
        let bytes = contents inc ++ contents buf in
        let n = packet_len bytes in
        let empty = flex_buffer_reset inc' padding_len in
        let (_, valid) = reset_lem inc' padding_len vi top in
        let ready : Ready limit empty = record {
          valid = valid;
          front = refl;
          roomy = roomy;
          part = inl (omega arith);
        } in
        let (state, left, next) =
          ih (deliver h (contents inc')) empty buf' g ready vb (omega arith)
            (rw back (omega (arith, length-drop n bytes))) (rw back (b.1 long enough)) in
        rw (deframe-whole g bytes long enough) (
          (rw back at state)
              ∙ ap (λ t. foldl deliver (deliver h t) (deframe g (drop n bytes)).0) front,
          rw back at left,
          next,
        )

    notify_loop_lem :
        (fuel : ℕ) (h : H) (inc buf : FlexBuffer) (g : ℕ)
        → Ready limit inc
        → IsValid buf
        → buf.size ≤ fuel
        → length (contents inc ++ contents buf) ≤ g
        → Bounded limit g (contents inc ++ contents buf)
        → Delivered h
            (deframe g (contents inc ++ contents buf))
            (notify_loop deliver fuel h inc buf)
    unfolding notify_loop
    notify_loop_lem zero h inc buf g r vb le size b = drained h inc buf g r vb (omega arith)
    notify_loop_lem (suc fuel) h inc buf g r vb le size b = elim (ℕ_discrete buf.size 0) [
      | yes e ↦ rw (==_of_eq buf.size 0 e) (drained h inc buf g r vb e)
      | no ne ↦ rw (==_of_ne buf.size 0 ne) (
          after_round fuel h inc buf g (round inc buf)
            (round_lem inc buf r vb (λ long. Bounded-first limit g _ b size long) wide) size
            (notify_loop_lem fuel) b le)
    ]

    pub notify_data_lem :
        (h : H) (inc buf : FlexBuffer) (g : ℕ)
        → Ready limit inc
        → IsValid buf
        → length (contents inc ++ contents buf) ≤ g
        → Bounded limit g (contents inc ++ contents buf)
        → Delivered h (deframe g (contents inc ++ contents buf)) (notify_data deliver h inc buf)
    unfolding notify_data
    notify_data_lem h inc buf g r vb = notify_loop_lem buf.size h inc buf g r vb (omega arith)

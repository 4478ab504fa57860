-- ===== src/Session/Reassembly/Join.antt =====
-- Dividing a stream into packets piece by piece gives what dividing the whole gives.
use my_test_module.Prelude.{
  ℕ, zero, suc, ◌≤◌, ◌≡◌, refl, sym, ap, ◌∙◌, List, [], ◌∷◌, ◌++◌, arith, inl, inr, length, take,
  drop, length-append, length-drop, take-append_le, drop-append_le,
}
use mathlib.Core.Path.{subst}
use native.Mathlib.Decide.{dec_lt}
use my_test_module.Session.Packet.{packet_len}
use my_test_module.Session.Reassembly.Fill.{packet_len-append}
use my_test_module.Session.Reassembly.Frames.{
  Frames, deframe, Partial, Bounded, deframe-Partial, deframe-whole,
}

pub data Whole (bytes : List ℕ) : Type 0 where
  part : Partial bytes → Whole bytes
  packet : 8 ≤ length bytes → packet_len bytes ≤ length bytes → Whole bytes

pub Whole-cases : (bytes : List ℕ) → Whole bytes
Whole-cases bytes = elim (dec_lt (length bytes) 8) [
  | yes short ↦ part (inl short)
  | no long ↦ elim (dec_lt (length bytes) (packet_len bytes)) [
    | yes short ↦ part (inr (omega arith, short))
    | no enough ↦ packet (omega arith) (omega arith)
  ]
]

-- Fuel for as many bytes as there are is enough.
pub deframe-fuel :
    (f g : ℕ) (bytes : List ℕ)
    → length bytes ≤ f
    → length bytes ≤ g
    → deframe f bytes ≡ deframe g bytes
deframe-fuel zero g bytes hf hg =
    let short : Partial bytes = inl (omega arith) in
    deframe-Partial zero bytes short ∙ sym (deframe-Partial g bytes short)
deframe-fuel (suc f) zero bytes hf hg =
    let short : Partial bytes = inl (omega arith) in
    deframe-Partial (suc f) bytes short ∙ sym (deframe-Partial zero bytes short)
deframe-fuel (suc f) (suc g) bytes hf hg = elim (Whole-cases bytes) [
  | part p ↦ deframe-Partial (suc f) bytes p ∙ sym (deframe-Partial (suc g) bytes p)
  | packet long enough ↦
      let n = length-drop (packet_len bytes) bytes in
      rw (
        deframe-whole f bytes long enough,
        deframe-whole g bytes long enough,
        deframe-fuel f g (drop (packet_len bytes) bytes) (omega arith) (omega arith),
      )
]

deframe-zero : (bytes : List ℕ) → deframe zero bytes ≡ ([], bytes)
unfolding deframe
deframe-zero bytes = refl

-- the bytes that are left are no more than there were
pub length-rest : (f : ℕ) (bytes : List ℕ) → length (deframe f bytes).1 ≤ length bytes
length-rest zero bytes = rw deframe-zero (omega arith)
length-rest (suc f) bytes = elim (Whole-cases bytes) [
  | part p ↦ rw (deframe-Partial (suc f) bytes p) (omega arith)
  | packet long enough ↦ rw (deframe-whole f bytes long enough) (
      omega (
        arith,
        length-rest f (drop (packet_len bytes) bytes),
        length-drop (packet_len bytes) bytes,
      ))
]

-- the first packet of a longer stream
module _ (xs ys : List ℕ) (long : 8 ≤ length xs) (enough : packet_len xs ≤ length xs) where
  pub drop_packet : drop (packet_len (xs ++ ys)) (xs ++ ys) ≡ drop (packet_len xs) xs ++ ys
  drop_packet =
      ap (λ n. drop n (xs ++ ys)) (packet_len-append xs ys long)
      ∙ drop-append_le (packet_len xs) xs ys enough

  pub take_packet : take (packet_len (xs ++ ys)) (xs ++ ys) ≡ take (packet_len xs) xs
  take_packet =
      ap (λ n. take n (xs ++ ys)) (packet_len-append xs ys long)
      ∙ take-append_le (packet_len xs) xs ys enough

  pub deframe_packet :
      (g : ℕ)
      → deframe (suc g) (xs ++ ys) ≡ (
          let (packets, rest) = deframe g (drop (packet_len xs) xs ++ ys) in
          (take (packet_len xs) xs ∷ packets, rest))
  deframe_packet g =
      let n = length-append xs ys in
      deframe-whole g (xs ++ ys) (omega arith) (omega (arith, packet_len-append xs ys long))
      ∙ rw (drop_packet, take_packet)

-- After a first piece, what it leaves goes on in front of the second.
abbrev pub continue : ℕ → Frames → List ℕ → Frames
continue g (packets, rest) ys = let (more, left) = deframe g (rest ++ ys) in (packets ++ more, left)

pub deframe-append :
    (g : ℕ) (xs ys : List ℕ)
    → length (xs ++ ys) ≤ g
    → deframe g (xs ++ ys) ≡ continue g (deframe g xs) ys
deframe-append zero xs ys h =
    rw (deframe-Partial zero xs (inl (omega (arith, length-append xs ys))))
deframe-append (suc g) xs ys h = elim (Whole-cases xs) [
  | part p ↦ rw (deframe-Partial (suc g) xs p)
  | packet long enough ↦
      let tail = drop (packet_len xs) xs in
      let n = length-drop (packet_len xs) xs in
      let rest = (deframe g tail).1 in
      let size : length (rest ++ ys) ≤ g =
        omega (arith, length-append rest ys, length-rest g tail, length-append xs ys) in
      let ih =
        deframe-append g tail ys (omega (arith, length-append tail ys, length-append xs ys)) in
      rw (
        deframe_packet xs ys long enough g,
        deframe-whole g xs long enough,
        ih,
        deframe-fuel (suc g) g (rest ++ ys) (omega arith) size,
      )
]

module _ (limit : ℕ) where
  pub Bounded-fuel :
      (f g : ℕ) (bytes : List ℕ) → length bytes ≤ f → Bounded limit f bytes → Bounded limit g bytes
  Bounded-fuel f zero bytes h b = tt
  Bounded-fuel zero (suc g) bytes h b =
      (λ long. absurd (omega arith), λ long enough. absurd (omega arith))
  Bounded-fuel (suc f) (suc g) bytes h b = (
    b.0,
    λ long enough.
        Bounded-fuel f g _ (omega (arith, length-drop (packet_len bytes) bytes)) (b.1 long enough),
  )

  pub Bounded-prefix : (g : ℕ) (xs ys : List ℕ) → Bounded limit g (xs ++ ys) → Bounded limit g xs
  Bounded-prefix zero xs ys b = tt
  Bounded-prefix (suc g) xs ys b = (
    λ long. omega (arith, b.0, packet_len-append xs ys long, length-append xs ys),
    λ long enough. Bounded-prefix g (drop (packet_len xs) xs) ys (
        subst (Bounded limit g) (drop_packet xs ys long enough) (
          b.1 (omega (arith, length-append xs ys))
            (omega (arith, packet_len-append xs ys long, length-append xs ys)))),
  )

  pub Bounded-rest :
      (g : ℕ) (xs ys : List ℕ)
      → length (xs ++ ys) ≤ g
      → Bounded limit g (xs ++ ys)
      → Bounded limit g ((deframe g xs).1 ++ ys)
  Bounded-rest zero xs ys h b = tt
  Bounded-rest (suc g) xs ys h b = elim (Whole-cases xs) [
    | part p ↦ rw (deframe-Partial (suc g) xs p) b
    | packet long enough ↦
        let tail = drop (packet_len xs) xs in
        let n = length-drop (packet_len xs) xs in
        let rest = (deframe g tail).1 in
        let next : Bounded limit g (tail ++ ys) =
          subst (Bounded limit g) (drop_packet xs ys long enough) (
            b.1 (omega (arith, length-append xs ys))
              (omega (arith, packet_len-append xs ys long, length-append xs ys))) in
        let shorter : Bounded limit g (rest ++ ys) =
          Bounded-rest g tail ys (omega (arith, length-append tail ys, length-append xs ys)) next in
        rw (deframe-whole g xs long enough) (
          Bounded-fuel g (suc g) (rest ++ ys)
            (omega (arith, length-append rest ys, length-rest g tail, length-append xs ys)) shorter)
  ]

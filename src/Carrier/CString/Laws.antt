-- ===== src/Carrier/CString/Laws.antt =====
-- What the string functions that carrier/IOEX_carrier.c calls leave in an array.
use my_test_module.Prelude.{
  ℕ, zero, suc, ◌<◌, ◌≡◌, ◌≢◌, refl, sym, ap, List, [], ◌∷◌, ◌++◌, Option, none, some, arith, inl,
  inr, length, set, take, drop, replicate, All, Option-cases, ==_of_eq, ==_of_ne,
}
use native.Mathlib.Decide.{ℕ_discrete}
use my_test_module.Carrier.CString.{c_string, strncpy, strrchr}

-- A string has no 0 before its end.
abbrev pub IsString : List ℕ → Type 0
IsString s = All (λ (b : ℕ). b ≢ 0) s

c_string-take :
    (s rest : List ℕ) (n m : ℕ)
    → IsString s
    → length s < n
    → 0 < m
    → c_string (take n (s ++ replicate m 0) ++ rest) ≡ s
unfolding c_string
c_string-take [] rest zero m w h p = absurd (omega arith)
c_string-take [] rest (suc n) zero w h p = absurd (omega arith)
c_string-take [] rest (suc n) (suc m) w h p = refl
c_string-take (b ∷ bs) rest zero m w h p = absurd (omega arith)
c_string-take (b ∷ bs) rest (suc n) m (ne, w) h p =
    rw (==_of_ne b 0 ne, c_string-take bs rest n m w (omega arith) p) refl

-- A string that leaves room for the 0 is what the array holds after strncpy.
pub c_string-strncpy :
    (dst s : List ℕ) (n : ℕ) → IsString s → length s < n → c_string (strncpy dst s n) ≡ s
unfolding strncpy
c_string-strncpy dst s n w h = c_string-take s (drop n dst) n n w h (omega arith)

c_string-set-take :
    (s rest zs : List ℕ) (i : ℕ)
    → IsString s
    → i < length s
    → c_string (set (take (suc i) (s ++ zs) ++ rest) i 0) ≡ take i s
unfolding c_string
c_string-set-take [] rest zs i w h = absurd (omega arith)
c_string-set-take (b ∷ bs) rest zs zero w h = refl
c_string-set-take (b ∷ bs) rest zs (suc i) (ne, w) h =
    rw (==_of_ne b 0 ne, c_string-set-take bs rest zs i w (omega arith)) refl

-- A 0 written at a place of the copied string ends it there.
pub c_string-set-strncpy :
    (dst s : List ℕ) (i : ℕ)
    → IsString s
    → i < length s
    → c_string (set (strncpy dst s (suc i)) i 0) ≡ take i s
unfolding strncpy
c_string-set-strncpy dst s i w h =
    c_string-set-take s (drop (suc i) dst) (replicate (suc i) 0) i w h

-- The string is split where strrchr finds the character.
abbrev pub Split : List ℕ → ℕ → Option ℕ → Type 0
Split s c none = All (λ (b : ℕ). b ≢ c) s
Split s c (some i) =
    (i < length s) × (take i s ++ c ∷ drop (suc i) s ≡ s) × All (λ (b : ℕ). b ≢ c) (drop (suc i) s)

pub strrchr_lem : (s : List ℕ) (c : ℕ) → Split s c (strrchr s c)
unfolding strrchr
strrchr_lem [] c = tt
strrchr_lem (b ∷ bs) c = elim (Option-cases (strrchr bs c)) [
  | inl e ↦
      let all : Split bs c none = rw e at (strrchr_lem bs c) in
      elim (ℕ_discrete b c) [
        | yes h ↦ rw (e, ==_of_eq b c h) (omega arith, ap (λ x. x ∷ bs) (sym h), all)
        | no h ↦ rw (e, ==_of_ne b c h) (h, all)
      ]
  | inr (i, e) ↦
      let found : Split bs c (some i) = rw e at (strrchr_lem bs c) in
      rw e (omega (arith, found.0), ap (λ xs. b ∷ xs) found.1, found.2)
]

pub IsString-take : (n : ℕ) (s : List ℕ) → IsString s → IsString (take n s)
IsString-take zero s w = tt
IsString-take (suc n) [] w = tt
IsString-take (suc n) (b ∷ bs) (ne, w) = (ne, IsString-take n bs w)

pub IsString-drop : (n : ℕ) (s : List ℕ) → IsString s → IsString (drop n s)
IsString-drop zero s w = w
IsString-drop (suc n) [] w = tt
IsString-drop (suc n) (b ∷ bs) (ne, w) = IsString-drop n bs w

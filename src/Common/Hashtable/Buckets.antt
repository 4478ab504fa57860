-- ===== src/Common/Hashtable/Buckets.antt =====
-- A bucket holds the entries of its index, the latest first.
use my_test_module.Prelude.{
  ℕ, ◌≤◌, ◌≡◌, ◌≢◌, refl, ap, ◌∙◌, List, [], ◌∷◌, ◌++◌, All, arith, length, Bool-cases, inl, inr,
  ◌==◌, ==_of_eq, ==_of_ne, ==_iff, if◌then◌else◌,
}
use mathlib.Core.List.{reverse, reverse-append}
use my_test_module.Common.Ring.{IsDistinct}
use my_test_module.Common.Ring.Chain.{reverse-middle}

module _ (idx : ℕ → ℕ) where
  -- the entries of an index in the order of the sequence
  abbrev pub of : ℕ → List ℕ → List ℕ
  of i [] = []
  of i (x ∷ xs) = if idx x == i then x ∷ of i xs else of i xs

  abbrev pub bucket_of : ℕ → List ℕ → List ℕ
  bucket_of i xs = reverse (of i xs)

  pub of-append : (i : ℕ) (xs ys : List ℕ) → of i (xs ++ ys) ≡ of i xs ++ of i ys
  of-append i [] ys = refl
  of-append i (x ∷ xs) ys = elim (Bool-cases (idx x == i)) [
    | inl e ↦ rw e (ap (λ t. x ∷ t) (of-append i xs ys))
    | inr e ↦ rw e (of-append i xs ys)
  ]

  pub All-of {κ} : (P : ℕ → Type κ) (i : ℕ) (xs : List ℕ) → All P xs → All P (of i xs)
  All-of P i [] a = tt
  All-of P i (x ∷ xs) a = elim (Bool-cases (idx x == i)) [
    | inl e ↦ rw e (a.0, All-of P i xs a.1)
    | inr e ↦ rw e (All-of P i xs a.1)
  ]

  pub idx-of : (i : ℕ) (xs : List ℕ) → All (λ (x : ℕ). idx x ≡ i) (of i xs)
  idx-of i [] = tt
  idx-of i (x ∷ xs) = elim (Bool-cases (idx x == i)) [
    | inl e ↦ rw e ((==_iff (idx x) i).0 e, idx-of i xs)
    | inr e ↦ rw e (idx-of i xs)
  ]

  pub length-of : (i : ℕ) (xs : List ℕ) → length (of i xs) ≤ length xs
  length-of i [] = omega arith
  length-of i (x ∷ xs) =
      let rest = length-of i xs in
      elim (Bool-cases (idx x == i)) [ inl e ↦ rw e (omega arith) | inr e ↦ rw e (omega arith) ]

  pub IsDistinct-of : (i : ℕ) (xs : List ℕ) → IsDistinct xs → IsDistinct (of i xs)
  IsDistinct-of i [] d = tt
  IsDistinct-of i (x ∷ xs) d = elim (Bool-cases (idx x == i)) [
    | inl e ↦ rw e (All-of (λ (y : ℕ). x ≢ y) i xs d.0, IsDistinct-of i xs d.1)
    | inr e ↦ rw e (IsDistinct-of i xs d.1)
  ]

  -- an entry in the middle, in its own bucket and seen from another one
  pub bucket_of-middle :
      (ys zs : List ℕ) (e : ℕ)
      → bucket_of (idx e) (ys ++ (e ∷ zs))
        ≡ reverse (of (idx e) zs) ++ (e ∷ reverse (of (idx e) ys))
  bucket_of-middle ys zs e =
      rw (of-append (idx e) ys (e ∷ zs), ==_of_eq (idx e) (idx e) refl)
        (reverse-middle (of (idx e) ys) (of (idx e) zs) e)

  pub bucket_of-without :
      (i : ℕ) (ys zs : List ℕ) → bucket_of i (ys ++ zs) ≡ reverse (of i zs) ++ reverse (of i ys)
  bucket_of-without i ys zs = ap reverse (of-append i ys zs) ∙ reverse-append (of i ys) (of i zs)

  pub bucket_of-other :
      (i : ℕ) (ys zs : List ℕ) (e : ℕ)
      → idx e ≢ i
      → bucket_of i (ys ++ (e ∷ zs)) ≡ bucket_of i (ys ++ zs)
  bucket_of-other i ys zs e ne =
      rw (of-append i ys (e ∷ zs), of-append i ys zs, ==_of_ne (idx e) i ne) refl

-- The indices count for the entries of the sequence only.
pub of-same :
    (idx idx' : ℕ → ℕ) (i : ℕ) (xs : List ℕ)
    → All (λ (x : ℕ). idx' x ≡ idx x) xs
    → of idx' i xs ≡ of idx i xs
of-same idx idx' i [] a = refl
of-same idx idx' i (x ∷ xs) a = rw (a.0, of-same idx idx' i xs a.1) refl

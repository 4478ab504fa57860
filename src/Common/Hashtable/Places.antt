-- ===== src/Common/Hashtable/Places.antt =====
-- What a lookup by a key finds in a sequence of entries, and the sequences with another entry in its
-- place and without it.
use my_test_module.Prelude.{
  ℕ, ◌≡◌, ◌⊎◌, inl, inr, refl, ap, Bool, true, false, Bool-cases, Option, none, some, List, [], ◌∷◌,
  ◌++◌, All, if◌then◌else◌,
}

module _ (p : ℕ → Bool) where
  abbrev pub lookup : List ℕ → Option ℕ
  lookup [] = none
  lookup (x ∷ xs) = if p x then some x else lookup xs

  -- A new entry goes to the end.
  abbrev pub put : ℕ → List ℕ → List ℕ
  put e [] = e ∷ []
  put e (x ∷ xs) = if p x then e ∷ xs else x ∷ put e xs

  abbrev pub delete : List ℕ → List ℕ
  delete [] = []
  delete (x ∷ xs) = if p x then xs else x ∷ delete xs

  abbrev pub IsAbsent : List ℕ → Type 0
  IsAbsent xs = All (λ (x : ℕ). p x ≡ false) xs

  abbrev pub Found : List ℕ → Type 0
  Found xs =
      (ys : List ℕ) × ((zs : List ℕ) × ((x : ℕ) × ((xs ≡ ys ++ (x ∷ zs))
            × ((p x ≡ true) × IsAbsent ys))))

  pub IsAbsent-or_Found : (xs : List ℕ) → IsAbsent xs ⊎ Found xs
  IsAbsent-or_Found [] = inl tt
  IsAbsent-or_Found (x ∷ xs) = elim (Bool-cases (p x)) [
    | inl hit ↦ inr ([], (xs, (x, (refl, (hit, tt)))))
    | inr miss ↦ elim (IsAbsent-or_Found xs) [
      | inl absent ↦ inl (miss, absent)
      | inr (ys, (zs, (y, (e, (hit, absent))))) ↦
          inr ((x ∷ ys), (zs, (y, (ap (λ t. x ∷ t) e, (hit, (miss, absent))))))
    ]
  ]

  -- where the key is absent
  pub lookup-IsAbsent : (xs : List ℕ) → IsAbsent xs → lookup xs ≡ none
  lookup-IsAbsent [] a = refl
  lookup-IsAbsent (x ∷ xs) a = rw a.0 (lookup-IsAbsent xs a.1)

  pub put-IsAbsent : (e : ℕ) (xs : List ℕ) → IsAbsent xs → put e xs ≡ xs ++ (e ∷ [])
  put-IsAbsent e [] a = refl
  put-IsAbsent e (x ∷ xs) a = rw a.0 (ap (λ t. x ∷ t) (put-IsAbsent e xs a.1))

  pub delete-IsAbsent : (xs : List ℕ) → IsAbsent xs → delete xs ≡ xs
  delete-IsAbsent [] a = refl
  delete-IsAbsent (x ∷ xs) a = rw a.0 (ap (λ t. x ∷ t) (delete-IsAbsent xs a.1))

  -- where `x` is the first with the key
  pub lookup_at :
      (ys zs : List ℕ) (x : ℕ) → IsAbsent ys → p x ≡ true → lookup (ys ++ (x ∷ zs)) ≡ some x
  lookup_at [] zs x a hit = rw hit refl
  lookup_at (y ∷ ys) zs x a hit = rw a.0 (lookup_at ys zs x a.1 hit)

  pub put_at :
      (e : ℕ) (ys zs : List ℕ) (x : ℕ)
      → IsAbsent ys
      → p x ≡ true
      → put e (ys ++ (x ∷ zs)) ≡ ys ++ (e ∷ zs)
  put_at e [] zs x a hit = rw hit refl
  put_at e (y ∷ ys) zs x a hit = rw a.0 (ap (λ t. y ∷ t) (put_at e ys zs x a.1 hit))

  pub delete_at :
      (ys zs : List ℕ) (x : ℕ) → IsAbsent ys → p x ≡ true → delete (ys ++ (x ∷ zs)) ≡ ys ++ zs
  delete_at [] zs x a hit = rw hit refl
  delete_at (y ∷ ys) zs x a hit = rw a.0 (ap (λ t. y ∷ t) (delete_at ys zs x a.1 hit))

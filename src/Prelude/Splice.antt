-- ===== src/Prelude/Splice.antt =====
-- Windows of a list and writes into one: what `memcpy` reads and writes.
use Prim.Native.Nat.{ℕ, zero, suc, ◌+◌, ◌≤◌}
use mathlib.Core.Path.{◌≡◌, refl, ap, ◌∙◌}
use mathlib.Core.List.{List, [], ◌∷◌, ◌++◌}
use native.Mathlib.Omega.{arith}
use my_test_module.Prelude.Lists.{length, take, drop}

module _ {ℓ} {A : Type ℓ} where
  -- `n` elements from index `k`
  abbrev pub window : ℕ → ℕ → List A → List A
  window k n xs = take n (drop k xs)

  -- `ys` written over `xs` from index `k`; what would fall behind the end is not written.
  pub splice : ℕ → List A → List A → List A
  splice k ys [] = []
  splice zero [] (x ∷ xs) = x ∷ xs
  splice zero (y ∷ ys) (x ∷ xs) = y ∷ splice zero ys xs
  splice (suc k) ys (x ∷ xs) = x ∷ splice k ys xs

  pub length-splice : (k : ℕ) (ys xs : List A) → length (splice k ys xs) ≡ length xs
  unfolding splice
  length-splice k ys [] = refl
  length-splice zero [] (x ∷ xs) = refl
  length-splice zero (y ∷ ys) (x ∷ xs) = ap suc (length-splice zero ys xs)
  length-splice (suc k) ys (x ∷ xs) = ap suc (length-splice k ys xs)

  pub take-nil : (n : ℕ) → take {A = A} n [] ≡ []
  take-nil zero = refl
  take-nil (suc n) = refl

  pub take_all : (n : ℕ) (xs : List A) → length xs ≤ n → take n xs ≡ xs
  take_all zero [] h = refl
  take_all zero (x ∷ xs) h = absurd (omega arith)
  take_all (suc n) [] h = refl
  take_all (suc n) (x ∷ xs) h = ap (λ t. x ∷ t) (take_all n xs (omega arith))

  pub drop_all : (n : ℕ) (xs : List A) → length xs ≤ n → drop n xs ≡ []
  drop_all zero [] h = refl
  drop_all zero (x ∷ xs) h = absurd (omega arith)
  drop_all (suc n) [] h = refl
  drop_all (suc n) (x ∷ xs) h = drop_all n xs (omega arith)

  pub take-take : (m n : ℕ) (xs : List A) → m ≤ n → take m (take n xs) ≡ take m xs
  take-take zero n xs h = refl
  take-take (suc m) zero xs h = absurd (omega arith)
  take-take (suc m) (suc n) [] h = refl
  take-take (suc m) (suc n) (x ∷ xs) h = ap (λ t. x ∷ t) (take-take m n xs (omega arith))

  pub drop-drop : (m n k : ℕ) (xs : List A) → k ≡ m + n → drop n (drop m xs) ≡ drop k xs
  drop-drop zero n k xs e = ap (λ t. drop t xs) (omega arith)
  drop-drop (suc m) n zero xs e = absurd (omega arith)
  drop-drop (suc m) zero (suc k) [] e = refl
  drop-drop (suc m) (suc n) (suc k) [] e = refl
  drop-drop (suc m) n (suc k) (x ∷ xs) e = drop-drop m n k xs (omega arith)

  pub drop-take : (n m k : ℕ) (xs : List A) → m ≡ n + k → drop n (take m xs) ≡ take k (drop n xs)
  drop-take zero m k xs e = ap (λ t. take t xs) (omega arith)
  drop-take (suc n) zero k xs e = absurd (omega arith)
  drop-take (suc n) (suc m) k [] e = rw take-nil
  drop-take (suc n) (suc m) k (x ∷ xs) e = drop-take n m k xs (omega arith)

  pub take-append : (xs ys : List A) → take (length xs) (xs ++ ys) ≡ xs
  take-append [] ys = refl
  take-append (x ∷ xs) ys = ap (λ t. x ∷ t) (take-append xs ys)

  pub drop-append : (xs ys : List A) → drop (length xs) (xs ++ ys) ≡ ys
  drop-append [] ys = refl
  drop-append (x ∷ xs) ys = drop-append xs ys

  pub take-append_le : (n : ℕ) (xs ys : List A) → n ≤ length xs → take n (xs ++ ys) ≡ take n xs
  take-append_le zero xs ys h = refl
  take-append_le (suc n) [] ys h = absurd (omega arith)
  take-append_le (suc n) (x ∷ xs) ys h = ap (λ t. x ∷ t) (take-append_le n xs ys (omega arith))

  pub drop-append_le :
      (n : ℕ) (xs ys : List A) → n ≤ length xs → drop n (xs ++ ys) ≡ drop n xs ++ ys
  drop-append_le zero xs ys h = refl
  drop-append_le (suc n) [] ys h = absurd (omega arith)
  drop-append_le (suc n) (x ∷ xs) ys h = drop-append_le n xs ys (omega arith)

  pub take-append_ge :
      (n k : ℕ) (xs ys : List A) → n ≡ length xs + k → take n (xs ++ ys) ≡ xs ++ take k ys
  take-append_ge n k [] ys e = ap (λ t. take t ys) (omega arith)
  take-append_ge zero k (x ∷ xs) ys e = absurd (omega arith)
  take-append_ge (suc n) k (x ∷ xs) ys e = ap (λ t. x ∷ t) (take-append_ge n k xs ys (omega arith))

  pub drop-append_ge :
      (n k : ℕ) (xs ys : List A) → n ≡ length xs + k → drop n (xs ++ ys) ≡ drop k ys
  drop-append_ge n k [] ys e = ap (λ t. drop t ys) (omega arith)
  drop-append_ge zero k (x ∷ xs) ys e = absurd (omega arith)
  drop-append_ge (suc n) k (x ∷ xs) ys e = drop-append_ge n k xs ys (omega arith)

  take-splice :
      (k : ℕ) (ys xs : List A)
      → k ≡ length ys
      → length ys ≤ length xs
      → take k (splice zero ys xs) ≡ ys
  unfolding splice
  take-splice zero [] xs e h = refl
  take-splice zero (y ∷ ys) xs e h = absurd (omega arith)
  take-splice (suc k) [] xs e h = absurd (omega arith)
  take-splice (suc k) (y ∷ ys) [] e h = absurd (omega arith)
  take-splice (suc k) (y ∷ ys) (x ∷ xs) e h =
      ap (λ t. y ∷ t) (take-splice k ys xs (omega arith) (omega arith))

  take-splice_after :
      (n k : ℕ) (ys xs : List A)
      → k ≡ n + length ys
      → k ≤ length xs
      → take k (splice n ys xs) ≡ take n xs ++ ys
  unfolding splice
  take-splice_after zero k ys xs e h = take-splice k ys xs (omega arith) (omega arith)
  take-splice_after (suc n) zero ys xs e h = absurd (omega arith)
  take-splice_after (suc n) (suc k) ys [] e h = absurd (omega arith)
  take-splice_after (suc n) (suc k) ys (x ∷ xs) e h =
      ap (λ t. x ∷ t) (take-splice_after n k ys xs (omega arith) (omega arith))

  -- Writing just behind a window extends it.
  pub window-splice :
      (o n i k : ℕ) (ys xs : List A)
      → i ≡ o + n
      → k ≡ n + length ys
      → o + k ≤ length xs
      → window o k (splice i ys xs) ≡ window o n xs ++ ys
  unfolding splice
  window-splice zero n i k ys xs e f h =
      ap (λ t. take k (splice t ys xs)) (omega arith) ∙ take-splice_after n k ys xs f (omega arith)
  window-splice (suc o) n zero k ys xs e f h = absurd (omega arith)
  window-splice (suc o) n (suc i) k [] [] e f h = ap (λ t. t) (window_empty n k)
    where
      window_empty : (n k : ℕ) → take {A = A} k [] ≡ take n [] ++ []
      window_empty zero zero = refl
      window_empty zero (suc k) = refl
      window_empty (suc n) zero = refl
      window_empty (suc n) (suc k) = refl
  window-splice (suc o) n (suc i) k (y ∷ ys) [] e f h = absurd (omega arith)
  window-splice (suc o) n (suc i) k ys (x ∷ xs) e f h =
      window-splice o n i k ys xs (omega arith) f (omega arith)

  splice-front :
      (k m : ℕ) (ys xs : List A)
      → k ≡ length ys + m
      → length ys ≤ length xs
      → take k (splice zero ys xs) ≡ ys ++ take m (drop (length ys) xs)
  unfolding splice
  splice-front k m [] [] e h = ap (λ t. take {A = A} t []) (omega arith)
  splice-front k m [] (x ∷ xs) e h = ap (λ t. take t (x ∷ xs)) (omega arith)
  splice-front k m (y ∷ ys) [] e h = absurd (omega arith)
  splice-front zero m (y ∷ ys) (x ∷ xs) e h = absurd (omega arith)
  splice-front (suc k) m (y ∷ ys) (x ∷ xs) e h =
      ap (λ t. y ∷ t) (splice-front k m ys xs (omega arith) (omega arith))

  -- Writing at the start of a window replaces its first elements.
  pub window-splice_front :
      (o k m i : ℕ) (ys xs : List A)
      → k ≡ length ys + m
      → i ≡ o + length ys
      → i ≤ length xs
      → window o k (splice o ys xs) ≡ ys ++ window i m xs
  unfolding splice
  window-splice_front zero k m i ys xs e f h =
      splice-front k m ys xs e (omega arith) ∙ ap (λ t. ys ++ window t m xs) (omega arith)
  window-splice_front (suc o) k m i [] [] e f h = ap (λ t. t) (window_nil k m i)
    where
      window_nil : (k m i : ℕ) → take {A = A} k [] ≡ take m (drop i [])
      window_nil zero zero zero = refl
      window_nil zero zero (suc i) = refl
      window_nil zero (suc m) zero = refl
      window_nil zero (suc m) (suc i) = refl
      window_nil (suc k) zero zero = refl
      window_nil (suc k) zero (suc i) = refl
      window_nil (suc k) (suc m) zero = refl
      window_nil (suc k) (suc m) (suc i) = refl
  window-splice_front (suc o) k m i (y ∷ ys) [] e f h = absurd (omega arith)
  window-splice_front (suc o) k m zero ys (x ∷ xs) e f h = absurd (omega arith)
  window-splice_front (suc o) k m (suc i) ys (x ∷ xs) e f h =
      window-splice_front o k m i ys xs e (omega arith) (omega arith)

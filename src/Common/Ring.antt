-- ===== src/Common/Ring.antt =====
-- The doubly linked rings through a head that common/linkedlist.c and common/linkedhashtable.c
-- both keep: one word of memory per entry and field, and the walks through them.
pub mod Chain
pub mod Surgery
use my_test_module.Prelude.{ℕ, ◌≡◌, ◌≢◌, List, [], ◌∷◌, Bool, ◌==◌, if◌then◌else◌, All}
use mathlib.Core.List.{reverse}

-- `p->f = v`, for the field `f` of every entry
abbrev pub update {ℓ} : {A : Type ℓ} → (ℕ → A) → ℕ → A → ℕ → A
update f p v q = if p == q then v else f q

-- From `a` the field leads through the entries `xs` to `b`.
abbrev pub Chain : (ℕ → ℕ) → ℕ → List ℕ → ℕ → Type 0
Chain f a [] b = f a ≡ b
Chain f a (x ∷ xs) b = (f a ≡ x) × Chain f x xs b

-- The field leads from `a` through `xs`, and from the first of `xs` to `b`.
abbrev pub Front : (ℕ → ℕ) → ℕ → List ℕ → Type 0
Front f a [] = Unit
Front f a (x ∷ xs) = (f a ≡ x) × Front f x xs

abbrev pub Back : (ℕ → ℕ) → List ℕ → ℕ → Type 0
Back f [] b = Unit
Back f (x ∷ xs) b = Chain f x xs b

abbrev pub last : ℕ → List ℕ → ℕ
last a [] = a
last a (x ∷ xs) = last x xs

abbrev pub first : List ℕ → ℕ → ℕ
first [] b = b
first (x ∷ xs) b = x

-- `p` is none of the entries.
abbrev pub IsOff : ℕ → List ℕ → Type 0
IsOff p xs = All (λ (x : ℕ). p ≢ x) xs

abbrev pub IsDistinct : List ℕ → Type 0
IsDistinct [] = Unit
IsDistinct (x ∷ xs) = IsOff x xs × IsDistinct xs

-- `next` and `prev` tie the entries, in this order, into a ring through the head.
abbrev pub IsRing : (ℕ → ℕ) → (ℕ → ℕ) → ℕ → List ℕ → Type 0
IsRing next prev head xs =
    Chain next head xs head × (Chain prev head (reverse xs) head × IsDistinct (head ∷ xs))

-- ===== src/Common/Ring/Chain.antt =====
-- Laws of the chains: they come apart at an entry, and a write elsewhere leaves them alone.
use my_test_module.Prelude.{
  ℕ, ◌≡◌, ◌≢◌, refl, sym, ◌∙◌, List, [], ◌∷◌, ◌++◌, All, ==_of_eq, ==_of_ne,
}
use mathlib.Core.List.{reverse, reverse-cons, reverse-append, append_assoc}
use my_test_module.Common.Ring.{update, Chain, Front, Back, last, first, IsOff, IsDistinct}

pub update_same {ℓ} : {A : Type ℓ} (f : ℕ → A) (p : ℕ) (v : A) → update f p v p ≡ v
update_same f p v = rw (==_of_eq p p refl)

pub update_ne {ℓ} : {A : Type ℓ} (f : ℕ → A) (p q : ℕ) (v : A) → p ≢ q → update f p v q ≡ f q
update_ne f p q v ne = rw (==_of_ne p q ne)

pub All-append {ℓ κ} :
    {A : Type ℓ} (P : A → Type κ) (xs ys : List A) → All P xs → All P ys → All P (xs ++ ys)
All-append P [] ys a b = b
All-append P (x ∷ xs) ys a b = (a.0, All-append P xs ys a.1 b)

pub All-of_append {ℓ κ} :
    {A : Type ℓ} (P : A → Type κ) (xs ys : List A) → All P (xs ++ ys) → All P xs × All P ys
All-of_append P [] ys a = (tt, a)
All-of_append P (x ∷ xs) ys a = let (l, r) = All-of_append P xs ys a.1 in ((a.0, l), r)

pub All-last {κ} : (P : ℕ → Type κ) (a : ℕ) (xs : List ℕ) → P a → All P xs → P (last a xs)
All-last P a [] p ps = p
All-last P a (x ∷ xs) p ps = All-last P x xs ps.0 ps.1

pub All-first {κ} : (P : ℕ → Type κ) (xs : List ℕ) (b : ℕ) → P b → All P xs → P (first xs b)
All-first P [] b p ps = p
All-first P (x ∷ xs) b p ps = ps.0

-- Where a chain comes apart, and how the parts are joined.
pub Front-of_Chain :
    (f : ℕ → ℕ) (a : ℕ) (ys zs : List ℕ) (b : ℕ)
    → Chain f a (ys ++ zs) b
    → Front f a ys × ((f (last a ys) ≡ first zs b) × Back f zs b)
Front-of_Chain f a [] [] b c = (tt, (c, tt))
Front-of_Chain f a [] (z ∷ zs) b c = (tt, (c.0, c.1))
Front-of_Chain f a (y ∷ ys) zs b c = let (l, r) = Front-of_Chain f y ys zs b c.1 in ((c.0, l), r)

pub Chain_of_Front :
    (f : ℕ → ℕ) (a : ℕ) (ys zs : List ℕ) (b : ℕ)
    → Front f a ys
    → f (last a ys) ≡ first zs b
    → Back f zs b
    → Chain f a (ys ++ zs) b
Chain_of_Front f a [] [] b l e r = e
Chain_of_Front f a [] (z ∷ zs) b l e r = (e, r)
Chain_of_Front f a (y ∷ ys) zs b l e r = (l.0, Chain_of_Front f y ys zs b l.1 e r)

-- writes that a part does not see
pub Front-update :
    (f : ℕ → ℕ) (p v a : ℕ) (ys : List ℕ)
    → IsOff p (a ∷ ys)
    → Front f a ys
    → Front (update f p v) a ys
Front-update f p v a [] off c = tt
Front-update f p v a (y ∷ ys) off c =
    (update_ne f p a v off.0 ∙ c.0, Front-update f p v y ys off.1 c.1)

pub Chain-update :
    (f : ℕ → ℕ) (p v a : ℕ) (ys : List ℕ) (b : ℕ)
    → IsOff p (a ∷ ys)
    → Chain f a ys b
    → Chain (update f p v) a ys b
Chain-update f p v a [] b off c = update_ne f p a v off.0 ∙ c
Chain-update f p v a (y ∷ ys) b off c =
    (update_ne f p a v off.0 ∙ c.0, Chain-update f p v y ys b off.1 c.1)

pub Back-update :
    (f : ℕ → ℕ) (p v : ℕ) (zs : List ℕ) (b : ℕ)
    → IsOff p zs
    → Back f zs b
    → Back (update f p v) zs b
Back-update f p v [] b off c = tt
Back-update f p v (z ∷ zs) b off c = Chain-update f p v z zs b off c

pub IsOff-flip : (a : ℕ) (xs : List ℕ) → IsOff a xs → All (λ (x : ℕ). x ≢ a) xs
IsOff-flip a [] o = tt
IsOff-flip a (x ∷ xs) o = (λ e. o.0 (sym e), IsOff-flip a xs o.1)

-- The field of the last entry is not part of the front.
pub Front-update-last :
    (f : ℕ → ℕ) (v a : ℕ) (ys : List ℕ)
    → IsDistinct (a ∷ ys)
    → Front f a ys
    → Front (update f (last a ys) v) a ys
Front-update-last f v a [] d c = tt
Front-update-last f v a (y ∷ ys) d c = (
  update_ne f (last y ys) a v
        (All-last (λ (x : ℕ). x ≢ a) y ys (λ q. d.0.0 (sym q)) (IsOff-flip a ys d.0.1))
      ∙ c.0,
  Front-update-last f v y ys d.1 c.1,
)

-- What a chain says of its end.
pub last-append : (a : ℕ) (xs : List ℕ) (y : ℕ) → last a (xs ++ (y ∷ [])) ≡ y
last-append a [] y = refl
last-append a (x ∷ xs) y = last-append x xs y

pub first-append : (xs ys : List ℕ) (b : ℕ) → first (xs ++ ys) b ≡ first xs (first ys b)
first-append [] ys b = refl
first-append (x ∷ xs) ys b = refl

pub last-reverse : (h : ℕ) (xs : List ℕ) → last h (reverse xs) ≡ first xs h
last-reverse h [] = refl
last-reverse h (x ∷ xs) = rw (reverse-cons x xs, last-append h (reverse xs) x)

pub first-reverse : (h : ℕ) (xs : List ℕ) → first (reverse xs) h ≡ last h xs
first-reverse h [] = refl
first-reverse h (x ∷ xs) =
    rw (reverse-cons x xs, first-append (reverse xs) (x ∷ []) h, first-reverse x xs)

pub reverse-middle :
    (ys zs : List ℕ) (e : ℕ) → reverse (ys ++ (e ∷ zs)) ≡ reverse zs ++ (e ∷ reverse ys)
reverse-middle ys zs e =
    rw (
      reverse-append ys (e ∷ zs),
      reverse-cons e zs,
      append_assoc (reverse zs) (e ∷ []) (reverse ys),
    )

-- All different
pub All-reverse {κ} : (P : ℕ → Type κ) (xs : List ℕ) → All P xs → All P (reverse xs)
All-reverse P [] a = tt
All-reverse P (x ∷ xs) a =
    rw (reverse-cons x xs) (All-append P (reverse xs) (x ∷ []) (All-reverse P xs a.1) (a.0, tt))

pub IsDistinct-append :
    (xs ys : List ℕ)
    → IsDistinct xs
    → IsDistinct ys
    → All (λ (x : ℕ). IsOff x ys) xs
    → IsDistinct (xs ++ ys)
IsDistinct-append [] ys d e a = e
IsDistinct-append (x ∷ xs) ys d e a =
    (All-append (λ (y : ℕ). x ≢ y) xs ys d.0 a.0, IsDistinct-append xs ys d.1 e a.1)

pub IsDistinct-reverse : (xs : List ℕ) → IsDistinct xs → IsDistinct (reverse xs)
IsDistinct-reverse [] d = tt
IsDistinct-reverse (x ∷ xs) d = rw (reverse-cons x xs) (
    IsDistinct-append (reverse xs) (x ∷ []) (IsDistinct-reverse xs d.1) (tt, tt)
      (singles (reverse xs) (All-reverse (λ (y : ℕ). y ≢ x) xs (IsOff-flip x xs d.0))))
  where
    singles : (ys : List ℕ) → All (λ (y : ℕ). y ≢ x) ys → All (λ (y : ℕ). IsOff y (x ∷ [])) ys
    singles [] a = tt
    singles (y ∷ ys) a = ((a.0, tt), singles ys a.1)

pub IsDistinct-split :
    (a : ℕ) (ys zs : List ℕ)
    → IsDistinct (a ∷ (ys ++ zs))
    → IsDistinct (a ∷ ys) × (IsOff (last a ys) zs × IsDistinct zs)
IsDistinct-split a [] zs d = ((tt, tt), (d.0, d.1))
IsDistinct-split a (y ∷ ys) zs d =
    let (l, r) = IsDistinct-split y ys zs d.1 in
    (((d.0.0, (All-of_append (λ (x : ℕ). a ≢ x) ys zs d.0.1).0), l), r)

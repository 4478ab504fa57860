-- ===== src/Common/Ring/Surgery.antt =====
-- The three changes that the code makes to a ring: an entry goes in, comes out, or takes the place
-- of another.
use my_test_module.Prelude.{ℕ, ◌≡◌, ◌≢◌, sym, ◌∙◌, List, [], ◌∷◌, ◌++◌, All}
use mathlib.Core.Path.{subst}
use mathlib.Core.List.{reverse, reverse-append}
use my_test_module.Common.Ring.{update, Chain, Front, Back, last, first, IsOff, IsDistinct, IsRing}
use my_test_module.Common.Ring.Chain.{
  update_same, update_ne, All-append, All-of_append, All-last, Front-of_Chain, Chain_of_Front,
  Front-update, Back-update, Front-update-last, last-reverse, first-reverse, reverse-middle,
  IsOff-flip, All-reverse, IsDistinct-reverse, IsDistinct-split,
}

-- One field, for the entries that go in, come out and are replaced.
pub Chain-link :
    (f : ℕ → ℕ) (e a : ℕ) (ys zs : List ℕ) (b : ℕ)
    → IsOff e (a ∷ (ys ++ zs))
    → IsDistinct (a ∷ (ys ++ zs))
    → Front f a ys
    → Back f zs b
    → Chain (update (update f e (first zs b)) (last a ys) e) a (ys ++ (e ∷ zs)) b
Chain-link f e a ys zs b off d l r =
    let (dl, dr) = IsDistinct-split a ys zs d in
    let (off_l, off_r) = All-of_append (λ (x : ℕ). e ≢ x) ys zs off.1 in
    let g = update f e (first zs b) in
    let ne : last a ys ≢ e =
      All-last (λ (x : ℕ). x ≢ e) a ys (λ q. off.0 (sym q)) (IsOff-flip e ys off_l) in
    Chain_of_Front (update g (last a ys) e) a ys (e ∷ zs) b
      (Front-update-last g e a ys dl (Front-update f e (first zs b) a ys (off.0, off_l) l))
      (update_same g (last a ys) e)
      (Chain_of_Front (update g (last a ys) e) e [] zs b tt
        (update_ne g (last a ys) e e ne ∙ update_same f e (first zs b))
        (Back-update g (last a ys) e zs b dr.0 (Back-update f e (first zs b) zs b off_r r)))

pub Chain-unlink :
    (f : ℕ → ℕ) (a : ℕ) (ys zs : List ℕ) (b : ℕ)
    → IsDistinct (a ∷ (ys ++ zs))
    → Front f a ys
    → Back f zs b
    → Chain (update f (last a ys) (first zs b)) a (ys ++ zs) b
Chain-unlink f a ys zs b d l r =
    let (dl, dr) = IsDistinct-split a ys zs d in
    Chain_of_Front (update f (last a ys) (first zs b)) a ys zs b
      (Front-update-last f (first zs b) a ys dl l) (update_same f (last a ys) (first zs b))
      (Back-update f (last a ys) (first zs b) zs b dr.0 r)

-- the parts of a chain beside one of its entries
pub Chain_beside :
    (f : ℕ → ℕ) (a : ℕ) (ys zs : List ℕ) (e b : ℕ)
    → Chain f a (ys ++ (e ∷ zs)) b
    → Front f a ys × ((f (last a ys) ≡ e) × ((f e ≡ first zs b) × Back f zs b))
Chain_beside f a ys zs e b c =
    let (l, (m, r)) = Front-of_Chain f a ys (e ∷ zs) b c in
    let (u, v) = Front-of_Chain f e [] zs b r in (l, (m, v))

-- The other entries of a list without one of them
pub All-beside {κ} :
    (P : ℕ → Type κ) (ys zs : List ℕ) (e : ℕ) → All P (ys ++ (e ∷ zs)) → P e × All P (ys ++ zs)
All-beside P ys zs e a =
    let (l, r) = All-of_append P ys (e ∷ zs) a in (r.0, All-append P ys zs l r.1)

pub IsDistinct-beside :
    (ys zs : List ℕ) (e : ℕ)
    → IsDistinct (ys ++ (e ∷ zs))
    → IsOff e (ys ++ zs) × IsDistinct (ys ++ zs)
IsDistinct-beside [] zs e d = d
IsDistinct-beside (y ∷ ys) zs e d =
    let (off, rest) = IsDistinct-beside ys zs e d.1 in
    let (ne, others) = All-beside (λ (x : ℕ). y ≢ x) ys zs e d.0 in
    (((λ q. ne (sym q)), off), (others, rest))

pub IsDistinct-insert :
    (ys zs : List ℕ) (e : ℕ)
    → IsOff e (ys ++ zs)
    → IsDistinct (ys ++ zs)
    → IsDistinct (ys ++ (e ∷ zs))
IsDistinct-insert [] zs e off d = (off, d)
IsDistinct-insert (y ∷ ys) zs e off d =
    let (l, r) = All-of_append (λ (x : ℕ). y ≢ x) ys zs d.0 in
    (
      All-append (λ (x : ℕ). y ≢ x) ys (e ∷ zs) l ((λ q. off.0 (sym q)), r),
      IsDistinct-insert ys zs e off.1 d.1,
    )

module _ (next prev : ℕ → ℕ) (h : ℕ) where
  -- `e` goes in between two neighbours.
  pub IsRing-link :
      (ys zs : List ℕ) (e : ℕ)
      → IsOff e (h ∷ (ys ++ zs))
      → IsRing next prev h (ys ++ zs)
      → IsRing
          (update (update next e (first zs h)) (last h ys) e)
          (update (update prev e (last h ys)) (first zs h) e)
          h
          (ys ++ (e ∷ zs))
  IsRing-link ys zs e off (forth, (back, d)) =
      let (l, (m, r)) = Front-of_Chain next h ys zs h forth in
      let back' : Chain prev h (reverse zs ++ reverse ys) h =
        subst (λ t. Chain prev h t h) (reverse-append ys zs) back in
      let (bl, (bm, br)) = Front-of_Chain prev h (reverse zs) (reverse ys) h back' in
      let off' : IsOff e (reverse zs ++ reverse ys) =
        subst (IsOff e) (reverse-append ys zs) (All-reverse (λ (x : ℕ). e ≢ x) (ys ++ zs) off.1) in
      let d' : IsDistinct (h ∷ (reverse zs ++ reverse ys)) =
        subst (λ t. IsDistinct (h ∷ t)) (reverse-append ys zs)
          (All-reverse (λ (x : ℕ). h ≢ x) (ys ++ zs) d.0, IsDistinct-reverse (ys ++ zs) d.1) in
      (
        Chain-link next e h ys zs h off d l r,
        (
          rw (reverse-middle ys zs e, sym (last-reverse h zs), sym (first-reverse h ys))
              (Chain-link prev e h (reverse zs) (reverse ys) h (off.0, off') d' bl br),
          ((
            All-append (λ (x : ℕ). h ≢ x) ys (e ∷ zs) (All-of_append (λ (x : ℕ). h ≢ x) ys zs d.0).0
                ((λ q. off.0 (sym q)), (All-of_append (λ (x : ℕ). h ≢ x) ys zs d.0).1),
            IsDistinct-insert ys zs e off.1 d.1,
          )),
        ),
      )

  -- the neighbours of an entry
  pub beside :
      (ys zs : List ℕ) (e : ℕ)
      → IsRing next prev h (ys ++ (e ∷ zs))
      → (next e ≡ first zs h) × (prev e ≡ last h ys)
  beside ys zs e (forth, (back, d)) =
      let (_, (_, (n, _))) = Chain_beside next h ys zs e h forth in
      let back' : Chain prev h (reverse zs ++ (e ∷ reverse ys)) h =
        subst (λ t. Chain prev h t h) (reverse-middle ys zs e) back in
      let (_, (_, (p, _))) = Chain_beside prev h (reverse zs) (reverse ys) e h back' in
      (n, p ∙ first-reverse h ys)

  -- `e` comes out.
  pub IsRing-unlink :
      (ys zs : List ℕ) (e : ℕ)
      → IsRing next prev h (ys ++ (e ∷ zs))
      → IsRing
          (update next (last h ys) (first zs h))
          (update prev (first zs h) (last h ys))
          h
          (ys ++ zs)
  IsRing-unlink ys zs e (forth, (back, d)) =
      let (l, (_, (_, r))) = Chain_beside next h ys zs e h forth in
      let back' : Chain prev h (reverse zs ++ (e ∷ reverse ys)) h =
        subst (λ t. Chain prev h t h) (reverse-middle ys zs e) back in
      let (bl, (_, (_, br))) = Chain_beside prev h (reverse zs) (reverse ys) e h back' in
      let ds : IsDistinct (h ∷ (ys ++ zs)) =
        ((All-beside (λ (x : ℕ). h ≢ x) ys zs e d.0).1, (IsDistinct-beside ys zs e d.1).1) in
      let ds' : IsDistinct (h ∷ (reverse zs ++ reverse ys)) =
        subst (λ t. IsDistinct (h ∷ t)) (reverse-append ys zs)
          (All-reverse (λ (x : ℕ). h ≢ x) (ys ++ zs) ds.0, IsDistinct-reverse (ys ++ zs) ds.1) in
      (
        Chain-unlink next h ys zs h ds l r,
        (
          rw (reverse-append ys zs, sym (last-reverse h zs), sym (first-reverse h ys))
              (Chain-unlink prev h (reverse zs) (reverse ys) h ds' bl br),
          ds,
        ),
      )

  -- `n` takes the place of `e`.
  pub IsRing-swap :
      (ys zs : List ℕ) (e n : ℕ)
      → IsOff n (h ∷ (ys ++ zs))
      → IsRing next prev h (ys ++ (e ∷ zs))
      → IsRing
          (update (update next n (first zs h)) (last h ys) n)
          (update (update prev n (last h ys)) (first zs h) n)
          h
          (ys ++ (n ∷ zs))
  IsRing-swap ys zs e n off (forth, (back, d)) =
      let (l, (_, (_, r))) = Chain_beside next h ys zs e h forth in
      let back' : Chain prev h (reverse zs ++ (e ∷ reverse ys)) h =
        subst (λ t. Chain prev h t h) (reverse-middle ys zs e) back in
      let (bl, (_, (_, br))) = Chain_beside prev h (reverse zs) (reverse ys) e h back' in
      let (ns, ds) : (IsOff h (ys ++ zs) × IsDistinct (ys ++ zs)) =
        ((All-beside (λ (x : ℕ). h ≢ x) ys zs e d.0).1, (IsDistinct-beside ys zs e d.1).1) in
      let off' : IsOff n (reverse zs ++ reverse ys) =
        subst (IsOff n) (reverse-append ys zs) (All-reverse (λ (x : ℕ). n ≢ x) (ys ++ zs) off.1) in
      let ds' : IsDistinct (h ∷ (reverse zs ++ reverse ys)) =
        subst (λ t. IsDistinct (h ∷ t)) (reverse-append ys zs)
          (All-reverse (λ (x : ℕ). h ≢ x) (ys ++ zs) ns, IsDistinct-reverse (ys ++ zs) ds) in
      let (hl, hr) = All-of_append (λ (x : ℕ). h ≢ x) ys zs ns in
      (
        Chain-link next n h ys zs h off (ns, ds) l r,
        (
          rw (reverse-middle ys zs n, sym (last-reverse h zs), sym (first-reverse h ys))
              (Chain-link prev n h (reverse zs) (reverse ys) h (off.0, off') ds' bl br),
          (
            All-append (λ (x : ℕ). h ≢ x) ys (n ∷ zs) hl ((λ q. off.0 (sym q)), hr),
            IsDistinct-insert ys zs n off.1 ds,
          ),
        ),
      )

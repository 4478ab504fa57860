-- ===== src/Common/LinkedList/Iterator/Loops.antt =====
-- Loops over the iterator of common/linkedlist.c, as its clients write them.
use my_test_module.Prelude.{
  ℕ, zero, suc, ◌<◌, ◌≡◌, refl, ap, ◌∙◌, Bool, true, false, Option, none, some, List, [], ◌∷◌, ◌++◌,
  map, arith, length, if◌then◌else◌, ℤ, pos,
}
use mathlib.Core.Path.{subst}
use mathlib.Core.List.{append_assoc}
use my_test_module.Common.LinkedList.{
  LinkedList, ListIterator, list_iterate, list_iterator_next, list_iterator_remove, unlink,
}
use my_test_module.Common.LinkedList.Laws.{IsList}
use my_test_module.Common.LinkedList.Iterator.{
  IsAt, list_iterate-IsAt, next_end, next_entry, remove_current, stepped, referred, dropped, behind,
}

-- `while (list_iterator_next(it, &data) == 1) if (drop(data)) list_iterator_remove(it);`: the data
-- in the order of the visits, the return code that ends the loop, and the list after it. There is
-- no result when the fuel runs out.
abbrev pub Visited : Type 0
Visited = Option (List ℕ × (ℤ × LinkedList))

abbrev pub visited : ℕ → Visited → Visited
visited d none = none
visited d (some (ds, r)) = some (d ∷ ds, r)

abbrev pub drop_if : Bool → ListIterator × LinkedList → ListIterator × LinkedList
drop_if false (it, l) = (it, l)
drop_if true (it, l) = (list_iterator_remove l it).1

abbrev pub go_on :
    (LinkedList → ListIterator → Visited)
    → (ℕ → Bool)
    → ℤ × (Option ℕ × (ListIterator × LinkedList))
    → Visited
go_on k drop (rc, (none, (it, l))) = some ([], (rc, l))
go_on k drop (rc, (some d, next)) = let (it, l) = drop_if (drop d) next in visited d (k l it)

abbrev pub sweep : (ℕ → Bool) → ℕ → LinkedList → ListIterator → Visited
sweep drop zero l it = none
sweep drop (suc n) l it = go_on (sweep drop n) drop (list_iterator_next l it)

-- the entries whose data stay
abbrev pub kept : (ℕ → ℕ) → (ℕ → Bool) → List ℕ → List ℕ
kept f drop [] = []
kept f drop (x ∷ xs) = if drop (f x) then kept f drop xs else x ∷ kept f drop xs

abbrev pub Sweeps : (ℕ → Bool) → ℕ → LinkedList → ListIterator → (ℕ → ℕ) → List ℕ → List ℕ → Type 0
Sweeps drop n l it f ys zs =
    (l' : LinkedList) × ((sweep drop n l it ≡ some (map f zs, (pos 0, l')))
      × IsList l' (ys ++ kept f drop zs))

-- after a step over `z`, which is dropped or not
abbrev Behind : (ℕ → Bool) → ℕ → LinkedList → ListIterator → List ℕ → List ℕ → ℕ → Bool → Type 0
Behind drop n l it ys zs z b =
    (l' : LinkedList) × ((visited (l.data_of z) (
          sweep drop n (drop_if b (stepped l it z, referred l z)).1
            (drop_if b (stepped l it z, referred l z)).0)
        ≡ some (map l.data_of (z ∷ zs), (pos 0, l')))
      × IsList l' (ys ++ (if b then kept l.data_of drop zs else z ∷ kept l.data_of drop zs)))

-- From any place of the iteration on
pub sweep_from :
    (drop : ℕ → Bool) (n : ℕ) (l : LinkedList) (it : ListIterator) (ys zs : List ℕ)
    → IsAt l it ys zs
    → length zs < n
    → Sweeps drop n l it l.data_of ys zs
unfolding unlink
sweep_from drop zero l it ys zs a lt = absurd (omega arith)
sweep_from drop (suc n) l it ys [] a lt =
    (l, (ap (go_on (sweep drop n) drop) (next_end l it ys a), a.0))
sweep_from drop (suc n) l it ys (z ∷ zs) a lt =
    let (next, at) = next_entry l it ys zs z a in
    let behind_z : (b : Bool) → Behind drop n l it ys zs z b = λ b.
      elim b as (λ k. Behind drop n l it ys zs z k) [
        | true ↦
            let (gone, at') = remove_current (referred l z) (stepped l it z) ys zs z at refl in
            let (l', (loop, valid)) =
              sweep_from drop n (dropped (referred l z) z) (behind (stepped l it z)) ys zs at'
                (omega arith) in
            (
              l',
              (
                ap (λ r. visited (l.data_of z) (sweep drop n r.1.1 r.1.0)) gone
                    ∙ ap (visited (l.data_of z)) loop,
                valid,
              ),
            )
        | false ↦
            let (l', (loop, valid)) =
              sweep_from drop n (referred l z) (stepped l it z) (ys ++ (z ∷ [])) zs at
                (omega arith) in
            (
              l',
              (
                ap (visited (l.data_of z)) loop,
                subst (IsList l') (append_assoc ys (z ∷ []) (kept l.data_of drop zs)) valid,
              ),
            )
      ] in
    let (l', (loop, valid)) = behind_z (drop (l.data_of z)) in
    (l', (ap (go_on (sweep drop n) drop) next ∙ loop, valid))

-- On a valid list the loop over list_iterator_next that removes some of the data by
-- list_iterator_remove ends with the return code 0 after one step more than there are entries; it
-- has visited every data in order, and exactly the entries whose data were not dropped are left, in
-- order.
pub sweep_lem :
    (drop : ℕ → Bool) (n : ℕ) (l : LinkedList) (xs : List ℕ)
    → IsList l xs
    → length xs < n
    → Sweeps drop n l (list_iterate l) l.data_of [] xs
sweep_lem drop n l xs v lt =
    sweep_from drop n l (list_iterate l) [] xs (list_iterate-IsAt l xs v) lt

-- ===== src/Common/LinkedList/Iterator.antt =====
-- The iterator of common/linkedlist.c between two entries of its list.
pub mod Loops
pub mod Stale
use my_test_module.Prelude.{
  ℕ, zero, suc, ◌+◌, ◌-◌, ◌^◌, ◌≤◌, ◌<◌, ◌≡◌, ◌≢◌, inl, inr, refl, sym, ap, ◌∙◌, Bool, true, false,
  not, ◌||◌, Option, none, some, List, [], ◌∷◌, ◌++◌, map, arith, All, All-map, length, ==_of_eq,
  ==_of_ne, if◌then◌else◌, ℤ, pos, negsuc, Bool-cases,
}
use mathlib.Core.Path.{subst}
use mathlib.Core.List.{append_assoc, append-nil}
use my_test_module.Common.Ring.{first, last}
use my_test_module.Common.Ring.Chain.{All-of_append, Front-of_Chain, All-first, All-last}
use my_test_module.Common.Ring.Surgery.{beside}
use my_test_module.Common.RcMem.{RcMem, ref, deref}
use my_test_module.Common.LinkedList.{
  LinkedList, ListIterator, list_iterate, list_iterator_next, list_iterator_has_next,
  list_iterator_remove, list_remove_entry, unlink, removed, mod_suc, refuse, again,
}
use my_test_module.Common.LinkedList.Laws.{IsList, unlink-IsList, IsOff-entry}

-- The iterator has gone through `ys` and comes to `zs`, and the list has not changed behind it.
abbrev pub IsAt : LinkedList → ListIterator → List ℕ → List ℕ → Type 0
IsAt l it ys zs =
    IsList l (ys ++ zs) × ((it.next ≡ first zs l.head) × (it.expected_mod_count ≡ l.mod_count))

pub first_real : (l : LinkedList) (ys zs : List ℕ) → IsList l (ys ++ zs) → first zs l.head ≢ 0
first_real l ys zs v =
    All-first (λ (x : ℕ). x ≢ 0) zs l.head v.1.1.1.0
      (All-map (λ (x : ℕ). (x ≢ 0) × (l.data_of x ≢ 0)) (λ (x : ℕ). x ≢ 0) zs (λ x r. r.0)
        (All-of_append (λ (x : ℕ). (x ≢ 0) × (l.data_of x ≢ 0)) ys zs v.1.1.1.1).1)

pub list_iterate-IsAt : (l : LinkedList) (xs : List ℕ) → IsList l xs → IsAt l (list_iterate l) [] xs
unfolding list_iterate
list_iterate-IsAt l xs v = (v, ((Front-of_Chain l.next l.head [] xs l.head v.1.1.0.0).1.0, refl))

pub next_end :
    (l : LinkedList) (it : ListIterator) (ys : List ℕ)
    → IsAt l it ys []
    → list_iterator_next l it ≡ (pos 0, (none, (it, l)))
unfolding list_iterator_next
next_end l it ys (v, (at, fresh)) =
    rw
      (
        ==_of_ne it.next 0 (λ q. first_real l ys [] v (sym at ∙ q)),
        ==_of_eq it.expected_mod_count l.mod_count fresh,
        ==_of_eq it.next l.head at,
      )
      refl

-- the iterator and the list behind the step over `z`
abbrev pub stepped : LinkedList → ListIterator → ℕ → ListIterator
stepped l it z = record it { current = z; next = l.next z }

abbrev pub referred : LinkedList → ℕ → LinkedList
referred l z = record l { memory = ref l.memory (l.data_of z) }

pub next_entry :
    (l : LinkedList) (it : ListIterator) (ys zs : List ℕ) (z : ℕ)
    → IsAt l it ys (z ∷ zs)
    → (list_iterator_next l it ≡ (pos 1, (some (l.data_of z), (stepped l it z, referred l z))))
      × IsAt (referred l z) (stepped l it z) (ys ++ (z ∷ [])) zs
unfolding list_iterator_next
next_entry l it ys zs z (v, (at, fresh)) =
    let w : IsList l ((ys ++ (z ∷ [])) ++ zs) =
      subst (IsList l) (sym (append_assoc ys (z ∷ []) zs)) v in
    let (off, _) = IsOff-entry l ys zs z v.1.1.0 in
    let (nz, _) = beside l.next l.prev l.head ys zs z v.1.1.0 in
    (
      rw
          (
            at,
            ==_of_ne z 0 (first_real l ys (z ∷ zs) v),
            ==_of_eq it.expected_mod_count l.mod_count fresh,
            ==_of_ne z l.head off,
          )
          refl,
      (w, (nz, fresh)),
    )

abbrev pub dropped : LinkedList → ℕ → LinkedList
dropped l z = let l1 = unlink l z in record l1 { memory = deref l1.memory (l.data_of z) }

abbrev pub behind : ListIterator → ListIterator
behind it = record it { current = 0; expected_mod_count = mod_suc it.expected_mod_count }

-- The entry that the iterator has just gone over can be removed, and the iterator goes on.
pub remove_current :
    (l : LinkedList) (it : ListIterator) (ys zs : List ℕ) (z : ℕ)
    → IsAt l it (ys ++ (z ∷ [])) zs
    → it.current ≡ z
    → (list_iterator_remove l it ≡ (pos 1, (behind it, dropped l z)))
      × IsAt (dropped l z) (behind it) ys zs
unfolding list_iterator_remove list_remove_entry unlink
remove_current l it ys zs z (w, (at, fresh)) here =
    let v : IsList l (ys ++ (z ∷ zs)) = subst (IsList l) (append_assoc ys (z ∷ []) zs) w in
    let (ne, pe) = beside l.next l.prev l.head ys zs z v.1.1.0 in
    let reals = All-of_append (λ (x : ℕ). (x ≢ 0) × (l.data_of x ≢ 0)) ys (z ∷ zs) v.1.1.1.1 in
    let p_real : l.prev z ≢ 0 = λ q.
      All-last (λ (x : ℕ). x ≢ 0) l.head ys v.1.1.1.0
        (All-map (λ (x : ℕ). (x ≢ 0) × (l.data_of x ≢ 0)) (λ (x : ℕ). x ≢ 0) ys (λ x r. r.0)
          reals.0)
        (sym pe ∙ q) in
    let n_real : l.next z ≢ 0 = λ q. first_real l (ys ++ (z ∷ [])) zs w (sym ne ∙ q) in
    let off = IsOff-entry l ys zs z v.1.1.0 in
    (
      rw
          (
            here,
            ==_of_ne it.next 0 (λ q. first_real l (ys ++ (z ∷ [])) zs w (sym at ∙ q)),
            ==_of_ne z 0 reals.1.0.0,
            ==_of_eq it.expected_mod_count l.mod_count fresh,
            ==_of_ne (l.data_of z) 0 reals.1.0.1,
            ==_of_ne (l.next z) 0 n_real,
            ==_of_ne (l.prev z) 0 p_real,
            ==_of_ne (l.data_of z) 0 reals.1.0.1,
          )
          refl,
      (unlink-IsList l ys zs z v, (at, ap mod_suc fresh)),
    )

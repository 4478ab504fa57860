-- ===== src/Common/Hashtable/Iterator.antt =====
-- The iterator of common/linkedhashtable.c.
use my_test_module.Prelude.{
  ℕ, zero, suc, ◌<◌, ◌≡◌, ◌≢◌, refl, sym, ap, ◌∙◌, Option, none, some, List, [], ◌∷◌, ◌++◌, arith,
  length, ==_of_eq, ==_of_ne, ℤ, pos,
}
use mathlib.Core.Path.{subst}
use mathlib.Core.List.{append_assoc}
use my_test_module.Common.Ring.{first}
use my_test_module.Common.Ring.Chain.{Front-of_Chain}
use my_test_module.Common.Ring.Surgery.{beside, All-beside}
use my_test_module.Common.RcMem.{ref}
use my_test_module.Common.Hashtable.{
  Hashtable, HashtableIterator, hashtable_iterate, hashtable_iterator_next, referred,
}
use my_test_module.Common.Hashtable.Table.{IsTable, IsReal}
use my_test_module.Common.Hashtable.Laws.{IsTable-counts}

-- `while (hashtable_iterator_next(it, …) == 1)`: the entries in the order of the visits, and the
-- return code that ends the loop. There is no result when the fuel runs out.
abbrev pub visited : ℕ → Option (List ℕ × ℤ) → Option (List ℕ × ℤ)
visited e none = none
visited e (some (es, rc)) = some (e ∷ es, rc)

abbrev pub go_on :
    (Hashtable → HashtableIterator → Option (List ℕ × ℤ))
    → ℤ × (Option ℕ × (HashtableIterator × Hashtable))
    → Option (List ℕ × ℤ)
go_on k (rc, (none, (it, t))) = some ([], rc)
go_on k (rc, (some e, (it, t))) = visited e (k t it)

abbrev pub visit : ℕ → Hashtable → HashtableIterator → Option (List ℕ × ℤ)
visit zero t it = none
visit (suc n) t it = go_on (visit n) (hashtable_iterator_next t it)

visit_from :
    (n : ℕ) (t : Hashtable) (it : HashtableIterator) (ys zs : List ℕ)
    → IsTable t (ys ++ zs)
    → t.head ≢ 0
    → it.next ≡ first zs t.head
    → it.expected_mod_count ≡ t.mod_count
    → length zs < n
    → visit n t it ≡ some (zs, pos 0)
unfolding hashtable_iterator_next
visit_from zero t it ys zs v head at fresh lt = absurd (omega arith)
visit_from (suc n) t it ys [] v head at fresh lt =
    rw
      (
        ==_of_ne it.next 0 (λ q. head (sym at ∙ q)),
        ==_of_eq it.expected_mod_count t.mod_count fresh,
        ==_of_eq it.next t.head at,
      )
      refl
visit_from (suc n) t it ys (z ∷ zs) v head at fresh lt =
    let w : IsTable t ((ys ++ (z ∷ [])) ++ zs) =
      subst (IsTable t) (sym (append_assoc ys (z ∷ []) zs)) v in
    let real = (All-beside (IsReal t) ys zs z v.real).0.0 in
    let off = (All-beside (λ (x : ℕ). t.head ≢ x) ys zs z v.ring.1.1.0).0 in
    let (nz, _) = beside t.lst_next t.lst_prev t.head ys zs z v.ring in
    rw
      (
        at,
        ==_of_ne z 0 real,
        ==_of_eq it.expected_mod_count t.mod_count fresh,
        ==_of_ne z t.head (λ q. off (sym q)),
      )
      (ap (visited z) (
        visit_from n (referred t (t.data_of z)) (record it { current = z; next = t.lst_next z })
          (ys ++ (z ∷ [])) zs (IsTable-counts t _ (ref t.memory (t.data_of z)) t.mod_count w) head
          nz fresh (omega arith)))

-- On a well-formed table the loop over hashtable_iterator_next ends with the return code 0 after
-- one step more than there are entries, and has visited the entries in the order of insertion.
pub visit_lem :
    (n : ℕ) (t : Hashtable) (xs : List ℕ)
    → IsTable t xs
    → t.head ≢ 0
    → length xs < n
    → visit n t (hashtable_iterate t) ≡ some (xs, pos 0)
unfolding hashtable_iterate
visit_lem n t xs v head lt =
    visit_from n t (hashtable_iterate t) [] xs v head
      (Front-of_Chain t.lst_next t.head [] xs t.head v.ring.0).1.0 refl lt

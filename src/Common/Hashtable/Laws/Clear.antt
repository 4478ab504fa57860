-- ===== src/Common/Hashtable/Laws/Clear.antt =====
-- hashtable_clear of common/linkedhashtable.c ends and leaves nothing.
use my_test_module.Prelude.{
  ℕ, zero, suc, ◌≤◌, ◌≡◌, ◌≢◌, refl, sym, ap, ◌∙◌, some, List, [], ◌∷◌, arith, length, ==_of_eq,
  ==_of_ne, if◌then◌else◌, ltb, lt→ltb,
}
use my_test_module.Common.Ring.{update, Back, first, IsOff}
use my_test_module.Common.Ring.Chain.{update_same, Front-of_Chain}
use my_test_module.Common.RcMem.{RcMem, deref}
use my_test_module.Common.LinkedList.{mod_suc}
use my_test_module.Common.LinkedList.Laws.{deref_all}
use my_test_module.Common.Hashtable.{Hashtable, deref_data, hashtable_clear, emptied}
use my_test_module.Common.Hashtable.Table.{IsTable}
use my_test_module.Common.Hashtable.Laws.{Holds}

deref_data_lem :
    (n : ℕ) (t : Hashtable) (xs : List ℕ) (m : RcMem)
    → length xs ≤ n
    → Back t.lst_next xs t.head
    → IsOff t.head xs
    → deref_data n t (first xs t.head) m ≡ some (deref_all m t.data_of xs)
unfolding deref_data
deref_data_lem zero t [] m le c off = rw (==_of_eq t.head t.head refl)
deref_data_lem zero t (x ∷ xs) m le c off = absurd (omega arith)
deref_data_lem (suc n) t [] m le c off = rw (==_of_eq t.head t.head refl)
deref_data_lem (suc n) t (x ∷ xs) m le c off =
    let (_, (e, r)) = Front-of_Chain t.lst_next x [] xs t.head c in
    rw (==_of_ne x t.head (λ q. off.0 (sym q))) (
      ap (λ k. deref_data n t k (deref m (t.data_of x))) e
      ∙ deref_data_lem n t xs (deref m (t.data_of x)) (omega arith) r off.1)

abbrev pub emptied_table : Hashtable → RcMem → Hashtable
emptied_table t m = record t {
  memory = m;
  buckets = λ i. if ltb i t.capacity then 0 else t.buckets i;
  lst_next = update t.lst_next t.head t.head;
  lst_prev = update t.lst_prev t.head t.head;
  count = 0;
  mod_count = mod_suc t.mod_count;
}

-- The data of every entry is given up once, in the order of insertion.
pub hashtable_clear_lem :
    (t : Hashtable) (xs : List ℕ)
    → IsTable t xs
    → (t' : Hashtable) × ((hashtable_clear t ≡ some t')
        × ((t'.memory ≡ deref_all t.memory t.data_of xs) × Holds t t' []))
unfolding hashtable_clear
hashtable_clear_lem t [] v = (t, (rw (==_of_eq t.count 0 v.counted) refl, (refl, (v, refl))))
hashtable_clear_lem t (x ∷ xs) v =
    let counted = v.counted in
    let full : t.count ≢ 0 = omega arith in
    let (_, (e, r)) = Front-of_Chain t.lst_next t.head [] (x ∷ xs) t.head v.ring.0 in
    let done : deref_data t.count t (t.lst_next t.head) t.memory
        ≡ some (deref_all t.memory t.data_of (x ∷ xs)) =
      ap (λ k. deref_data t.count t k t.memory) e
      ∙ deref_data_lem t.count t (x ∷ xs) t.memory (omega arith) r v.ring.1.1.0 in
    (
      emptied_table t (deref_all t.memory t.data_of (x ∷ xs)),
      (
        rw (==_of_ne t.count 0 full) (ap (emptied t) done),
        (
          refl,
          (
            record {
              counted = refl;
              bounded = omega arith;
              sized = v.sized;
              ring = (
                update_same t.lst_next t.head t.head,
                (update_same t.lst_prev t.head t.head, (tt, tt)),
              );
              real = tt;
              apart = tt;
              keys = v.keys;
              chains = λ i lt. (rw (lt→ltb i t.capacity lt) refl, tt);
            },
            refl,
          ),
        ),
      ),
    )

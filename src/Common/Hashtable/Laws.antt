-- ===== src/Common/Hashtable/Laws.antt =====
-- The operations of common/linkedhashtable.c change the entries as the map does.
pub mod Clear
pub mod Calls
use my_test_module.Prelude.{
  ℕ, zero, suc, ◌+◌, ◌-◌, ◌%◌, ◌^◌, ◌≤◌, ◌<◌, ◌≡◌, ◌≢◌, refl, sym, ap, ◌∙◌, Bool, true, false,
  Bool-cases, inl, inr, Option, none, some, List, [], ◌∷◌, ◌++◌, All, All-map, arith, length, ◌==◌,
  ==_of_eq, ==_of_ne, ==_iff, if◌then◌else◌, ltb, lt→ltb,
}
use mathlib.Core.Path.{subst}
use native.Mathlib.Nat.{mod-lt}
use my_test_module.Common.Ring.{update, Back, first, last, IsOff, IsRing}
use my_test_module.Common.Ring.Chain.{update_same, Front-of_Chain, All-of_append}
use my_test_module.Common.RcMem.{RcMem, ref, deref}
use my_test_module.Common.LinkedList.{mod_suc}
use my_test_module.Common.Hashtable.{
  Hashtable, Slot, bucket, next_of, hashtable_get_entry, referred, counted, put_entry, remove_slot,
  read_data, is_some, read_slot, unlink_entry,
}
use my_test_module.Common.Hashtable.Places.{
  IsAbsent, Found, IsAbsent-or_Found, lookup, put, delete, lookup-IsAbsent, put-IsAbsent,
  delete-IsAbsent, lookup_at, put_at, delete_at,
}
use my_test_module.Common.Hashtable.Table.{
  has_key, IsTable, index_of, get_entry-absent, get_entry-found, slot_of,
}
use my_test_module.Common.Hashtable.Remove.{unlink_entry_lem, unlinked}
use my_test_module.Common.Hashtable.Put.{IsFresh, added, hashtable_add-IsTable}
use my_test_module.Common.Hashtable.Replace.{linked, replace_entry-IsTable}
use my_test_module.Common.Hashtable.Map.{Fixed, fixed, data_at, is_there}

-- The counts of the references and of the changes are no part of the structure.
pub IsTable-counts :
    (t : Hashtable) (xs : List ℕ) (m : RcMem) (c : ℕ)
    → IsTable t xs
    → IsTable (record t { memory = m; mod_count = c }) xs
IsTable-counts t xs m c v = record {
  counted = v.counted;
  bounded = v.bounded;
  sized = v.sized;
  ring = v.ring;
  real = v.real;
  apart = v.apart;
  keys = v.keys;
  chains = v.chains;
}

-- a table that holds these entries, and the same fields
abbrev pub Holds : Hashtable → Hashtable → List ℕ → Type 0
Holds t t' xs = IsTable t' xs × (fixed t' ≡ fixed t)

pub IsTable-counted : (t : Hashtable) (xs : List ℕ) → IsTable t xs → IsTable (counted t) xs
IsTable-counted t xs v = IsTable-counts t xs t.memory (mod_suc t.mod_count) v

read_slot-referred : (t : Hashtable) (p : ℕ) (s : Slot) → read_slot (referred t p) s ≡ read_slot t s
read_slot-referred t p (bucket i) = refl
read_slot-referred t p (next_of e) = refl

-- the bucket of an entry is one of the table's
index_of-lt : (t : Hashtable) (xs : List ℕ) (x : ℕ) → IsTable t xs → index_of t x < t.capacity
index_of-lt t xs x v = mod-lt (t.hash_code x) v.sized

pub put_entry-put :
    (t : Hashtable) (xs : List ℕ) (n : ℕ)
    → IsTable t xs
    → IsFresh t xs n
    → length xs + 1 < 2 ^ 64
    → Holds t
        (counted
          (put_entry (referred t (t.data_of n)) (hashtable_get_entry t (t.key n) (t.keylen n)) n))
        (put (has_key t (t.key n) (t.keylen n)) n xs)
put_entry-put t xs n v fresh room =
    let p = has_key t (t.key n) (t.keylen n) in
    let t1 = referred t (t.data_of n) in
    let v1 = IsTable-counts t xs (ref t.memory (t.data_of n)) t.mod_count v in
    elim (IsAbsent-or_Found p xs) [
      | inl absent ↦
          let (is, table) = hashtable_add-IsTable t1 xs n v1 fresh absent room in
          let w = added t1 xs n v1 fresh in
          subst (λ s. Holds t (counted (put_entry t1 s n)) (put p n xs))
            (sym (get_entry-absent t xs v (t.key n) (t.keylen n) absent))
            (subst (λ u. Holds t (counted u) (put p n xs)) (sym is)
              (subst (λ us. Holds t (counted w) us) (sym (put-IsAbsent p n xs absent))
                (IsTable-counted w (xs ++ (n ∷ [])) table, refl)))
      | inr (ys, (zs, (x, (here, (hit, absent))))) ↦
          let (found, reads) = get_entry-found t xs v (t.key n) (t.keylen n) ys zs x here hit in
          let v2 : IsTable t1 (ys ++ (x ∷ zs)) = subst (IsTable t1) here v1 in
          let fresh2 : IsFresh t1 (ys ++ (x ∷ zs)) n = subst (λ us. IsFresh t1 us n) here fresh in
          let slot = slot_of t xs v (t.key n) (t.keylen n) zs x in
          let (bs, (nx, (is, table))) =
            replace_entry-IsTable t1 ys zs x n v2 fresh2 hit (index_of-lt t xs x v)
              (read_slot-referred t (t.data_of n) slot ∙ reads) in
          let w : Hashtable = record (linked t1 ys zs x n v2 fresh2 hit) {
            buckets = bs;
            next = nx;
          } in
          subst (λ s. Holds t (counted (put_entry t1 s n)) (put p n xs)) (sym found)
            (subst (λ u. Holds t (counted u) (put p n xs)) (sym is)
              (subst (λ us. Holds t (counted w) us)
                (sym (ap (put p n) here ∙ put_at p n ys zs x absent hit))
                (IsTable-counted w (ys ++ (n ∷ zs)) table, refl)))
    ]

pub remove_slot-delete :
    (t : Hashtable) (xs : List ℕ) (k l : ℕ)
    → IsTable t xs
    → (t' : Hashtable) × ((remove_slot t (hashtable_get_entry t k l)
          ≡ (data_at t.data_of (lookup (has_key t k l) xs), t'))
        × Holds t t' (delete (has_key t k l) xs))
remove_slot-delete t xs k l v =
    let p = has_key t k l in
    elim (IsAbsent-or_Found p xs) [
      | inl absent ↦ (
        t,
        (
          ap (remove_slot t) (get_entry-absent t xs v k l absent)
              ∙ ap (λ o. (data_at t.data_of o, t)) (sym (lookup-IsAbsent p xs absent)),
          (subst (IsTable t) (sym (delete-IsAbsent p xs absent)) v, refl),
        ),
      )
      | inr (ys, (zs, (x, (here, (hit, absent))))) ↦
          let (found, reads) = get_entry-found t xs v k l ys zs x here hit in
          let v2 : IsTable t (ys ++ (x ∷ zs)) = subst (IsTable t) here v in
          let (bs, (nx, (is, table))) =
            unlink_entry_lem t ys zs x v2 (index_of-lt t xs x v) reads in
          let w = unlinked t ys zs x v2 bs nx in
          (
            w,
            (
              ap (remove_slot t) found
                  ∙ (ap (λ e. (t.data_of e, unlink_entry t (slot_of t xs v k l zs x))) reads
                      ∙ (ap (λ u. (t.data_of x, u)) is
                          ∙ ap (λ o. (data_at t.data_of o, w))
                              (sym (ap (lookup p) here ∙ lookup_at p ys zs x absent hit)))),
              (
                subst (IsTable w) (sym (ap (delete p) here ∙ delete_at p ys zs x absent hit)) table,
                refl,
              ),
            ),
          )
    ]

pub get_entry-lookup :
    (t : Hashtable) (xs : List ℕ) (k l : ℕ)
    → IsTable t xs
    → (is_some (hashtable_get_entry t k l) ≡ is_there (lookup (has_key t k l) xs))
      × ((t' : Hashtable) × ((read_data t (hashtable_get_entry t k l)
              ≡ (data_at t.data_of (lookup (has_key t k l) xs), t'))
            × Holds t t' xs))
get_entry-lookup t xs k l v =
    let p = has_key t k l in
    elim (IsAbsent-or_Found p xs) [
      | inl absent ↦
          let miss = get_entry-absent t xs v k l absent in
          let none_there = sym (lookup-IsAbsent p xs absent) in
          (
            ap is_some miss ∙ ap is_there none_there,
            (t, (ap (read_data t) miss ∙ ap (λ o. (data_at t.data_of o, t)) none_there, (v, refl))),
          )
      | inr (ys, (zs, (x, (here, (hit, absent))))) ↦
          let (found, reads) = get_entry-found t xs v k l ys zs x here hit in
          let there = sym (ap (lookup p) here ∙ lookup_at p ys zs x absent hit) in
          let t' = referred t (t.data_of x) in
          (
            ap is_some found ∙ ap is_there there,
            (
              t',
              (
                ap (read_data t) found
                    ∙ (ap (λ e. (t.data_of e, referred t (t.data_of e))) reads
                        ∙ ap (λ o. (data_at t.data_of o, t')) there),
                (IsTable-counts t xs (ref t.memory (t.data_of x)) t.mod_count v, refl),
              ),
            ),
          )
    ]

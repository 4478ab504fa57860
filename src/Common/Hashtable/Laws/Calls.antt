-- ===== src/Common/Hashtable/Laws/Calls.antt =====
-- Runs of calls of common/linkedhashtable.c.
use my_test_module.Prelude.{
  ℕ, ◌≡◌, ◌≢◌, refl, sym, ap, ◌∙◌, Bool-cases, inl, inr, Option, none, some, List, [], ◌∷◌, arith,
  length, ◌==◌, ℤ, pos,
}
use mathlib.Core.Path.{subst}
use my_test_module.Common.Hashtable.{
  Hashtable, refuse, hashtable_put, hashtable_get, hashtable_exist, hashtable_remove,
  hashtable_is_empty,
}
use my_test_module.Common.Hashtable.Table.{IsTable}
use my_test_module.Common.Hashtable.Map.{
  Call, put_entry, get, exist, remove, is_empty, clear, as_int, perform, Fixed, fixed, no_key,
  no_entry, answer, IsAllowed, at_key, data_at, is_there, key_of,
}
use my_test_module.Common.Hashtable.Places.{lookup, delete, put}
use my_test_module.Common.Hashtable.Laws.{
  Holds, put_entry-put, remove_slot-delete, get_entry-lookup,
}
use my_test_module.Common.Hashtable.Laws.Clear.{hashtable_clear_lem}

abbrev pub Answers : Hashtable → List ℕ → Call → Type 0
Answers t xs call =
    (t' : Hashtable) × ((perform t call ≡ some ((answer (fixed t) xs call).0, t'))
      × Holds t t' (answer (fixed t) xs call).1)

answers :
    (t : Hashtable) (xs : List ℕ) (call : Call) (rc : ℤ) (t' : Hashtable) (xs' : List ℕ)
    → perform t call ≡ some (rc, t')
    → answer (fixed t) xs call ≡ (rc, xs')
    → Holds t t' xs'
    → Answers t xs call
answers t xs call rc t' xs' does says holds =
    (t', (does ∙ ap (λ a. some (a.0, t')) (sym says), subst (λ a. Holds t t' a.1) (sym says) holds))

refused : (t : Hashtable) (xs : List ℕ) → IsTable t xs → Holds t (refuse t) xs
refused t xs v = (
  record {
    counted = v.counted;
    bounded = v.bounded;
    sized = v.sized;
    ring = v.ring;
    real = v.real;
    apart = v.apart;
    keys = v.keys;
    chains = v.chains;
  },
  refl,
)

-- Each allowed call ends, answers what the map does, and the table then holds what the call leaves.
pub perform-answer :
    (t : Hashtable) (xs : List ℕ) (call : Call)
    → IsTable t xs
    → IsAllowed (fixed t) xs call
    → Answers t xs call
unfolding perform hashtable_put hashtable_get hashtable_exist hashtable_remove hashtable_is_empty
perform-answer t xs (put_entry e) v (off, room) = elim (Bool-cases (no_entry (fixed t) e)) [
  | inl bad ↦
      answers t xs (put_entry e) (pos 0) (refuse t) xs (rw bad refl) (rw bad refl) (refused t xs v)
  | inr good ↦
      let nonzero : e ≢ 0 = ground (arith, good) in
      let keyed : t.key e ≢ 0 = ground (arith, good) in
      let long : t.keylen e ≢ 0 = ground (arith, good) in
      let full : t.data_of e ≢ 0 = ground (arith, good) in
      answers t xs (put_entry e) (pos (t.data_of e)) _ (put (key_of (fixed t) e) e xs)
        (rw good refl) (rw good refl)
        (put_entry-put t xs e v (off, (nonzero, (full, (keyed, long)))) room)
]
perform-answer t xs (get k l) v ok = elim (Bool-cases (no_key k l)) [
  | inl bad ↦
      answers t xs (get k l) (pos 0) (refuse t) xs (rw bad refl) (rw bad refl) (refused t xs v)
  | inr good ↦
      let (_, (t', (reads, holds))) = get_entry-lookup t xs k l v in
      answers t xs (get k l) (pos (data_at t.data_of (lookup (at_key (fixed t) k l) xs))) t' xs
        (rw good (ap (λ r. some (pos r.0, r.1)) reads)) (rw good refl) holds
]
perform-answer t xs (exist k l) v ok = elim (Bool-cases (no_key k l)) [
  | inl bad ↦
      answers t xs (exist k l) (pos 0) (refuse t) xs (rw bad refl) (rw bad refl) (refused t xs v)
  | inr good ↦
      let (there, _) = get_entry-lookup t xs k l v in
      answers t xs (exist k l) (as_int (is_there (lookup (at_key (fixed t) k l) xs))) t xs
        (rw good (ap (λ b. some (as_int b, t)) there)) (rw good refl) (v, refl)
]
perform-answer t xs (remove k l) v ok = elim (Bool-cases (no_key k l)) [
  | inl bad ↦
      answers t xs (remove k l) (pos 0) (refuse t) xs (rw bad refl) (rw bad refl) (refused t xs v)
  | inr good ↦
      let (t', (does, holds)) = remove_slot-delete t xs k l v in
      answers t xs (remove k l) (pos (data_at t.data_of (lookup (at_key (fixed t) k l) xs))) t'
        (delete (at_key (fixed t) k l) xs) (rw good (ap (λ r. some (pos r.0, r.1)) does))
        (rw good refl) holds
]
perform-answer t xs is_empty v ok =
    answers t xs is_empty (as_int (length xs == 0)) t xs
      (ap (λ n. some (as_int (n == 0), t)) v.counted) refl (v, refl)
perform-answer t xs clear v ok =
    let (t', (does, (_, holds))) = hashtable_clear_lem t xs v in
    answers t xs clear (pos 0) t' [] (rw (perform, does) refl) refl holds

-- a run of calls, and what it answers
abbrev pub and_answer : ℤ → Option (List ℤ × Hashtable) → Option (List ℤ × Hashtable)
and_answer a none = none
and_answer a (some (rest, t)) = some (a ∷ rest, t)

abbrev pub run_then :
    (Hashtable → Option (List ℤ × Hashtable)) → Option (ℤ × Hashtable) → Option (List ℤ × Hashtable)
run_then k none = none
run_then k (some (a, t)) = and_answer a (k t)

abbrev pub run : List Call → Hashtable → Option (List ℤ × Hashtable)
run [] t = some ([], t)
run (c ∷ cs) t = run_then (run cs) (perform t c)

abbrev pub run_map : Fixed → List Call → List ℕ → List ℤ × List ℕ
run_map f [] xs = ([], xs)
run_map f (c ∷ cs) xs =
    let rest = run_map f cs (answer f xs c).1 in ((answer f xs c).0 ∷ rest.0, rest.1)

-- Each call of the run is allowed when it is made.
abbrev pub AreAllowed : Fixed → List Call → List ℕ → Type 0
AreAllowed f [] xs = Unit
AreAllowed f (c ∷ cs) xs = IsAllowed f xs c × AreAllowed f cs (answer f xs c).1

abbrev Refines : List Call → Hashtable → List ℕ → Fixed → Type 0
Refines cs t xs f =
    AreAllowed f cs xs
    → (t' : Hashtable) × ((run cs t ≡ some ((run_map f cs xs).0, t'))
        × IsTable t' (run_map f cs xs).1)

-- A hash table whose ring and buckets hold some entries, one for a key, answers every run of calls
-- of put, get, exist, remove, is_empty and clear as the map does that keeps them in the order of
-- insertion and replaces an entry where it stands; every call ends, and the table then holds what
-- the run leaves. The keys that compare equal to one key must be equal and have one hash, an entry
-- that is put in must not be in the table, and there must be room.
pub run-run_map :
    (cs : List Call) (t : Hashtable) (xs : List ℕ)
    → IsTable t xs
    → AreAllowed (fixed t) cs xs
    → (t' : Hashtable) × ((run cs t ≡ some ((run_map (fixed t) cs xs).0, t'))
        × IsTable t' (run_map (fixed t) cs xs).1)
run-run_map [] t xs v ok = (t, (refl, v))
run-run_map (c ∷ cs) t xs v (allowed, later) =
    let (t1, (does, (table, same))) = perform-answer t xs c v allowed in
    let xs1 = (answer (fixed t) xs c).1 in
    let (t2, (rest, end)) = subst (Refines cs t1 xs1) same (run-run_map cs t1 xs1 table) later in
    (t2, (rw (does, rest) refl, end))

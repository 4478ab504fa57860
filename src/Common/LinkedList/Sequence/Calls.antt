-- ===== src/Common/LinkedList/Sequence/Calls.antt =====
-- Each call of common/linkedlist.c answers as the sequence does.
use my_test_module.Prelude.{
  All-map, ℕ, suc, ◌+◌, ◌^◌, ◌<◌, ◌≡◌, ◌≢◌, inl, inr, refl, sym, ap, ◌∙◌, true, false, not, ◌||◌,
  Bool-cases, some, List, [], ◌∷◌, ◌++◌, arith, length, take, drop, get_or, take-append-drop, ◌==◌,
  ==_of_eq, ==_of_ne, ℤ, pos, negsuc,
}
use mathlib.Core.Path.{subst}
use my_test_module.Common.RcMem.{ref}
use my_test_module.Common.Ring.{last, IsOff}
use my_test_module.Common.Ring.Chain.{All-of_append, All-first, All-last}
use my_test_module.Common.Ring.Surgery.{beside}
use my_test_module.Common.LinkedList.{
  LinkedList, can_insert, is_index, insert_behind, list_insert, list_remove, list_remove_entry,
  list_get, list_find, list_size, insert_cursor, entry_at, unlink, find_entry, refuse,
}
use my_test_module.Common.LinkedList.Places.{
  place, position, position_lt, take-get-drop, insert_cursor_lem, entry_at_lem,
}
use my_test_module.Common.LinkedList.Laws.{
  IsList, insert_behind-IsList, unlink-IsList, find_index, find_entry_lem, list_clear_lem,
  Back-of_ring, IsOff-entry,
}
use my_test_module.Common.LinkedList.Sequence.{
  Operation, insert, remove, remove_entry, get, find, size, clear, perform, without, with_at,
  without_at, answer, IsAllowed, Holds, matches_of, Answers,
}

answers :
    (l : LinkedList) (xs : List ℕ) (op : Operation) (rc : ℤ) (l' : LinkedList) (xs' : List ℕ)
    → perform l op ≡ some (rc, l')
    → answer l.data_of (matches_of l) xs op ≡ (rc, xs')
    → Holds l l' xs'
    → Answers l xs op
answers l xs op rc l' xs' does says holds =
    (l', (does ∙ ap (λ a. some (a.0, l')) (sym says), subst (λ a. Holds l l' a.1) (sym says) holds))

insert-Answers :
    (l : LinkedList) (xs : List ℕ) (index : ℤ) (e : ℕ)
    → IsList l xs
    → IsAllowed l.head l.data_of xs (insert index e)
    → Answers l xs (insert index e)
unfolding perform list_insert insert_behind
insert-Answers l xs index e v (full, (off, room)) =
    elim (Bool-cases (e == 0 || not (can_insert l.size index))) [
      | inl bad ↦
          answers l xs (insert index e) (pos 0) (refuse l) xs (rw bad refl) (rw (sym v.0, bad) refl)
            (v, (refl, (refl, refl)))
      | inr good ↦
          let nonzero : e ≢ 0 = ground (arith, good) in
          let fits : can_insert (length xs) index ≡ true =
            subst (λ n. can_insert n index ≡ true) v.0 (ground (arith, good)) in
          let p = place (length xs) index in
          let whole : take p xs ++ drop p xs ≡ xs = take-append-drop p xs in
          let at : insert_cursor l index ≡ last l.head (take p xs) =
            insert_cursor_lem l xs v.1.1.0 index fits in
          answers l xs (insert index e) (pos 1) (insert_behind l (last l.head (take p xs)) e)
            (with_at p e xs) (rw good (ap (λ c. some (pos 1, insert_behind l c e)) at))
            (rw (sym v.0, good) refl)
            (
              insert_behind-IsList l (take p xs) (drop p xs) e (subst (IsList l) (sym whole) v)
                  (subst (λ t. length t + 1 < 2 ^ 31) (sym whole) room) nonzero full
                  (subst (λ t. IsOff e (l.head ∷ t)) (sym whole) off),
              (refl, (refl, refl)),
            )
    ]

remove-Answers :
    (l : LinkedList) (xs : List ℕ) (index : ℤ) → IsList l xs → Answers l xs (remove index)
unfolding perform list_remove unlink
remove-Answers l xs index v = elim (Bool-cases (is_index l.size index)) [
  | inr bad ↦
      answers l xs (remove index) (pos 0) (refuse l) xs (rw bad refl) (rw (sym v.0, bad) refl)
        (v, (refl, (refl, refl)))
  | inl good ↦
      let fits : is_index (length xs) index ≡ true =
        subst (λ n. is_index n index ≡ true) v.0 good in
      let p = position (length xs) index in
      let e = get_or xs p 0 in
      let whole : take p xs ++ (e ∷ drop (suc p) xs) ≡ xs =
        take-get-drop xs p (position_lt (length xs) index fits) in
      let at : entry_at l index ≡ e = entry_at_lem l xs v.1.1.0 index fits in
      answers l xs (remove index) (pos (l.data_of e)) (unlink l e) (without_at p xs)
        (rw good (ap (λ c. some (pos (l.data_of c), unlink l c)) at)) (rw (sym v.0, good) refl)
        (
          unlink-IsList l (take p xs) (drop (suc p) xs) e (subst (IsList l) (sym whole) v),
          (refl, (refl, refl)),
        )
]

get-Answers : (l : LinkedList) (xs : List ℕ) (index : ℤ) → IsList l xs → Answers l xs (get index)
unfolding perform list_get
get-Answers l xs index v = elim (Bool-cases (is_index l.size index)) [
  | inr bad ↦
      answers l xs (get index) (pos 0) (refuse l) xs (rw bad refl) (rw (sym v.0, bad) refl)
        (v, (refl, (refl, refl)))
  | inl good ↦
      let fits : is_index (length xs) index ≡ true =
        subst (λ n. is_index n index ≡ true) v.0 good in
      let e = get_or xs (position (length xs) index) 0 in
      let at : entry_at l index ≡ e = entry_at_lem l xs v.1.1.0 index fits in
      answers l xs (get index) (pos (l.data_of e))
        (record l { memory = ref l.memory (l.data_of e) }) xs
        (rw good
          (ap (λ c. some (pos (l.data_of c), record l { memory = ref l.memory (l.data_of c) })) at))
        (rw (sym v.0, good) refl) (v, (refl, (refl, refl)))
]

pub without_lem :
    (ys zs : List ℕ) (e : ℕ) → IsOff e (ys ++ zs) → without e (ys ++ (e ∷ zs)) ≡ ys ++ zs
without_lem [] zs e off = rw (==_of_eq e e refl)
without_lem (y ∷ ys) zs e off =
    rw (==_of_ne y e (λ q. off.0 (sym q))) (ap (λ t. y ∷ t) (without_lem ys zs e off.1))

remove_entry-Answers :
    (l : LinkedList) (xs : List ℕ) (e : ℕ)
    → IsList l xs
    → IsAllowed l.head l.data_of xs (remove_entry e)
    → Answers l xs (remove_entry e)
unfolding perform list_remove_entry unlink
remove_entry-Answers l xs e v (inl null) =
    let zero : (e == 0) ≡ true = ==_of_eq e 0 null in
    answers l xs (remove_entry e) (pos 0) (refuse l) xs (rw zero refl) (rw zero refl)
      (v, (refl, (refl, refl)))
remove_entry-Answers l xs e v (inr (ys, (zs, here))) =
    let w : IsList l (ys ++ (e ∷ zs)) = subst (IsList l) here v in
    let reals = (All-of_append (λ (x : ℕ). (x ≢ 0) × (l.data_of x ≢ 0)) ys (e ∷ zs) w.1.1.1.1) in
    let (ne, pe) = beside l.next l.prev l.head ys zs e w.1.1.0 in
    let n_real : l.next e ≢ 0 = λ q.
      All-first (λ (x : ℕ). x ≢ 0) zs l.head w.1.1.1.0
        (All-map (λ (x : ℕ). (x ≢ 0) × (l.data_of x ≢ 0)) (λ (x : ℕ). x ≢ 0) zs (λ x r. r.0)
          reals.1.1)
        (sym ne ∙ q) in
    let p_real : l.prev e ≢ 0 = λ q.
      All-last (λ (x : ℕ). x ≢ 0) l.head ys w.1.1.1.0
        (All-map (λ (x : ℕ). (x ≢ 0) × (l.data_of x ≢ 0)) (λ (x : ℕ). x ≢ 0) ys (λ x r. r.0)
          reals.0)
        (sym pe ∙ q) in
    let nonzero : (e == 0) ≡ false = ==_of_ne e 0 reals.1.0.0 in
    let full : (l.data_of e == 0) ≡ false = ==_of_ne (l.data_of e) 0 reals.1.0.1 in
    answers l xs (remove_entry e) (pos (l.data_of e)) (unlink l e) (ys ++ zs)
      (rw (nonzero, full, ==_of_ne (l.next e) 0 n_real, ==_of_ne (l.prev e) 0 p_real) refl)
      (rw (nonzero, here, without_lem ys zs e (IsOff-entry l ys zs e w.1.1.0).1) refl)
      (unlink-IsList l ys zs e w, (refl, (refl, refl)))

find-Answers : (l : LinkedList) (xs : List ℕ) (e : ℕ) → IsList l xs → Answers l xs (find e)
unfolding perform list_find
find-Answers l xs e v = elim (Bool-cases (e == 0 || l.data_of e == 0)) [
  | inl bad ↦
      answers l xs (find e) (negsuc 0) (refuse l) xs (rw bad refl) (rw bad refl)
        (v, (refl, (refl, refl)))
  | inr good ↦
      let (start, chain) = Back-of_ring l xs v.1.1.0 in
      answers l xs (find e) (find_index (λ x. matches_of l x e) xs 0) l xs
        (rw good (
          ap (λ k. some (k, l))
            (ap (λ n. find_entry l n (l.next l.head) 0 e) v.0
              ∙ (ap (λ t. find_entry l (length xs) t 0 e) start ∙ find_entry_lem l e xs 0 chain))))
        (rw good refl) (v, (refl, (refl, refl)))
]

-- Each allowed call ends, answers what the sequence does, and the list then holds the sequence that
-- the call leaves.
pub perform-answer :
    (l : LinkedList) (xs : List ℕ) (op : Operation)
    → IsList l xs
    → IsAllowed l.head l.data_of xs op
    → Answers l xs op
unfolding perform list_size
perform-answer l xs (insert index e) v ok = insert-Answers l xs index e v ok
perform-answer l xs (remove index) v ok = remove-Answers l xs index v
perform-answer l xs (remove_entry e) v ok = remove_entry-Answers l xs e v ok
perform-answer l xs (get index) v ok = get-Answers l xs index v
perform-answer l xs (find e) v ok = find-Answers l xs e v
perform-answer l xs size v ok =
    answers l xs size (pos (length xs)) l xs (ap (λ n. some (pos n, l)) v.0) refl
      (v, (refl, (refl, refl)))
perform-answer l xs clear v ok =
    let (l', (does, ((holds, _), same))) = list_clear_lem l xs v in
    answers l xs clear (pos 0) l' [] (rw (perform, does) refl) refl (holds, same)

-- ===== src/Common/LinkedList/Iterator/Stale.antt =====
-- An iterator of common/linkedlist.c refuses a list that has changed behind it.
use my_test_module.Prelude.{
  ◌^◌, ◌<◌, ◌≡◌, ◌≢◌, inl, inr, refl, sym, ap, ◌∙◌, not, ◌||◌, none, some, arith, ==_of_ne, ℤ,
  Option-cases, pos, negsuc, Bool-cases, ◌==◌,
}
use mathlib.Core.Option.{some-injective, none-ne-some}
use my_test_module.Common.LinkedList.{
  LinkedList, ListIterator, list_iterator_next, list_iterator_remove, list_insert, list_remove,
  list_remove_entry, list_clear, deref_entries, insert_behind, unlink, mod_suc, again, can_insert,
  is_index, insert_cursor, entry_at, cleared_list, refuse,
}
use my_test_module.Common.LinkedList.Sequence.{
  Operation, insert, remove, remove_entry, get, find, size, clear, perform,
}

-- The call has put an entry in or taken entries out.
abbrev pub IsChange : Operation → ℤ → Type 0
IsChange (insert index e) rc = rc ≡ pos 1
IsChange (remove index) rc = rc ≢ pos 0
IsChange (remove_entry e) rc = rc ≢ pos 0
IsChange (get index) rc = rc ≢ rc
IsChange (find e) rc = rc ≢ rc
IsChange size rc = rc ≢ rc
IsChange clear rc = rc ≡ rc

perform-mod_count :
    (l : LinkedList) (op : Operation) (rc : ℤ) (l' : LinkedList)
    → perform l op ≡ some (rc, l')
    → IsChange op rc
    → l'.mod_count ≡ mod_suc l.mod_count
unfolding perform list_insert insert_behind list_remove list_remove_entry unlink list_clear
perform-mod_count l (insert index e) rc l' does c =
    elim (Bool-cases (e == 0 || not (can_insert l.size index))) [
      | inl bad ↦
          let is : perform l (insert index e) ≡ some (pos 0, refuse l) = rw bad refl in
          let q = some-injective _ _ (sym is ∙ does) in
          let rc0 : pos 0 ≡ rc = ap (λ p. p.0) q in absurd (cc (rc0, c))
      | inr good ↦
          let is : perform l (insert index e)
              ≡ some (pos 1, insert_behind l (insert_cursor l index) e) =
            rw good refl in
          sym (ap (λ p. p.1.mod_count) (some-injective _ _ (sym is ∙ does)))
    ]
perform-mod_count l (remove index) rc l' does c = elim (Bool-cases (is_index l.size index)) [
  | inr bad ↦
      let is : perform l (remove index) ≡ some (pos 0, refuse l) = rw bad refl in
      absurd (c (sym (ap (λ p. p.0) (some-injective _ _ (sym is ∙ does)))))
  | inl good ↦
      let is : perform l (remove index)
          ≡ some (pos (l.data_of (entry_at l index)), unlink l (entry_at l index)) =
        rw good refl in
      sym (ap (λ p. p.1.mod_count) (some-injective _ _ (sym is ∙ does)))
]
perform-mod_count l (remove_entry e) rc l' does c =
    elim (Bool-cases (e == 0 || (l.data_of e == 0 || (l.next e == 0 || l.prev e == 0)))) [
      | inl bad ↦
          let is : perform l (remove_entry e) ≡ some (pos 0, refuse l) = rw bad refl in
          absurd (c (sym (ap (λ p. p.0) (some-injective _ _ (sym is ∙ does)))))
      | inr good ↦
          let is : perform l (remove_entry e) ≡ some (pos (l.data_of e), unlink l e) =
            rw good refl in
          sym (ap (λ p. p.1.mod_count) (some-injective _ _ (sym is ∙ does)))
    ]
perform-mod_count l (get index) rc l' does c = absurd (c refl)
perform-mod_count l (find e) rc l' does c = absurd (c refl)
perform-mod_count l size rc l' does c = absurd (c refl)
perform-mod_count l clear rc l' does c =
    elim (Option-cases (deref_entries l.size l (l.next l.head) l.memory)) [
      | inl out ↦
          let is : perform l clear ≡ none = rw (perform, list_clear, out) refl in
          absurd (none-ne-some _ (sym is ∙ does))
      | inr (m, ok) ↦
          let is : perform l clear ≡ some (pos 0, cleared_list l m) =
            rw (perform, list_clear, ok) refl in
          sym (ap (λ p. p.1.mod_count) (some-injective _ _ (sym is ∙ does)))
    ]

-- An iterator over a list behind which a call has put in or taken out an entry, or cleared the
-- list, gets -1 with EAGAIN and no data from list_iterator_next and -1 from list_iterator_remove,
-- and neither changes the iterator or the entries; the number of changes must be below 2 ^ 32.
pub perform-stale :
    (l : LinkedList) (op : Operation) (rc : ℤ) (l' : LinkedList) (it : ListIterator)
    → perform l op ≡ some (rc, l')
    → IsChange op rc
    → l.mod_count < 2 ^ 32
    → it.expected_mod_count ≡ l.mod_count
    → it.next ≢ 0
    → (list_iterator_next l' it ≡ (negsuc 0, (none, (it, record l' { errno = again }))))
      × (it.current ≢ 0
          → list_iterator_remove l' it ≡ (negsuc 0, (it, record l' { errno = again })))
unfolding list_iterator_next list_iterator_remove
perform-stale l op rc l' it does c fits fresh real =
    let e = perform-mod_count l op rc l' does c in
    let ne : it.expected_mod_count ≢ l'.mod_count = omega arith in
    let n = ==_of_ne it.next 0 real in
    let m = ==_of_ne it.expected_mod_count l'.mod_count ne in
    (rw (n, m) refl, λ cur. rw (n, ==_of_ne it.current 0 cur, m) refl)

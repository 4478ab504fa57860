-- ===== src/Common/LinkedList/Sequence.antt =====
-- What common/linkedlist.h promises: a sequence of entries, and what each call does to it.
pub mod Calls
pub mod Runs
use my_test_module.Prelude.{
  All-map, ℕ, zero, suc, ◌+◌, ◌-◌, ◌^◌, ◌≤◌, ◌<◌, ◌≡◌, ◌≢◌, ◌⊎◌, inl, inr, refl, sym, ap, ◌∙◌, Bool,
  true, false, not, ◌||◌, Bool-cases, Option, none, some, List, [], ◌∷◌, ◌++◌, arith, length, take,
  drop, get_or, take-append-drop, ◌==◌, ==_of_eq, ==_of_ne, ==_iff, if◌then◌else◌, ℤ, pos, negsuc,
}
use mathlib.Core.Path.{subst}
use my_test_module.Common.RcMem.{ref}
use my_test_module.Common.Ring.{last, first, IsOff, IsRing}
use my_test_module.Common.Ring.Chain.{All-of_append, All-first, All-last}
use my_test_module.Common.Ring.Surgery.{beside, IsDistinct-beside}
use my_test_module.Common.LinkedList.{
  LinkedList, can_insert, is_index, insert_behind, list_insert, list_remove, list_remove_entry,
  list_get, list_find, list_clear, list_size, is_match, insert_cursor, entry_at, unlink, find_entry,
  refuse,
}
use my_test_module.Common.LinkedList.Places.{
  place, position, place_le, position_lt, take-get-drop, insert_cursor_lem, entry_at_lem,
}
use my_test_module.Common.LinkedList.Laws.{
  IsList, insert_behind-IsList, unlink-IsList, find_index, find_entry_lem, list_clear_lem,
  Back-of_ring, IsOff-entry,
}

-- a call on the list
pub data Operation : Type 0 where
  insert : ℤ → ℕ → Operation
  remove : ℤ → Operation
  remove_entry : ℕ → Operation
  get : ℤ → Operation
  find : ℕ → Operation
  size : Operation
  clear : Operation

-- The return value of a call, a pointer as the number of its address, and the list after it. There
-- is none for a call that does not end.
unfoldable pub perform : LinkedList → Operation → Option (ℤ × LinkedList)
perform l (insert index e) = let (rc, l') = list_insert l index e in some (pos rc, l')
perform l (remove index) = let (val, l') = list_remove l index in some (pos val, l')
perform l (remove_entry e) = let (val, l') = list_remove_entry l e in some (pos val, l')
perform l (get index) = let (val, l') = list_get l index in some (pos val, l')
perform l (find e) = some (list_find l e)
perform l size = some (pos (list_size l), l)
perform l clear = elim (list_clear l) [ none ↦ none | some l' ↦ some (pos 0, l') ]

-- the sequence without an entry
abbrev pub without : ℕ → List ℕ → List ℕ
without e [] = []
without e (x ∷ xs) = if x == e then xs else x ∷ without e xs

abbrev pub with_at : ℕ → ℕ → List ℕ → List ℕ
with_at p e xs = take p xs ++ (e ∷ drop p xs)

abbrev pub without_at : ℕ → List ℕ → List ℕ
without_at p xs = take p xs ++ drop (suc p) xs

module _ (data_of : ℕ → ℕ) (matches : ℕ → ℕ → Bool) where
  -- the answer of a call on a sequence, and the sequence after it
  abbrev pub answer : List ℕ → Operation → ℤ × List ℕ
  answer xs (insert index e) =
      if e == 0 || not (can_insert (length xs) index)
      then (pos 0, xs)
      else (pos 1, with_at (place (length xs) index) e xs)
  answer xs (remove index) =
      if is_index (length xs) index
      then (
        pos (data_of (get_or xs (position (length xs) index) 0)),
        without_at (position (length xs) index) xs,
      )
      else (pos 0, xs)
  answer xs (remove_entry e) = if e == 0 then (pos 0, xs) else (pos (data_of e), without e xs)
  answer xs (get index) =
      if is_index (length xs) index
      then (pos (data_of (get_or xs (position (length xs) index) 0)), xs)
      else (pos 0, xs)
  answer xs (find e) =
      if e == 0 || data_of e == 0 then (negsuc 0, xs) else (find_index (λ x. matches x e) xs 0, xs)
  answer xs size = (pos (length xs), xs)
  answer xs clear = (pos 0, [])

-- What the caller of an operation must see to: an entry that is put in is not in the list, has its
-- data, and there is room; an entry that is taken out is in the list.
abbrev pub IsAllowed : ℕ → (ℕ → ℕ) → List ℕ → Operation → Type 0
IsAllowed head data_of xs (insert index e) =
    (data_of e ≢ 0) × (IsOff e (head ∷ xs) × (length xs + 1 < 2 ^ 31))
IsAllowed head data_of xs (remove index) = Unit
IsAllowed head data_of xs (remove_entry e) =
    (e ≡ 0) ⊎ ((ys : List ℕ) × ((zs : List ℕ) × (xs ≡ ys ++ (e ∷ zs))))
IsAllowed head data_of xs (get index) = Unit
IsAllowed head data_of xs (find e) = Unit
IsAllowed head data_of xs size = Unit
IsAllowed head data_of xs clear = Unit

-- The list `l` holds the sequence, at this head, with these data and this comparison.
abbrev pub Holds : LinkedList → LinkedList → List ℕ → Type 0
Holds start l xs =
    IsList l xs
    × ((l.head ≡ start.head) × ((l.data_of ≡ start.data_of) × (l.compare ≡ start.compare)))

abbrev pub matches_of : LinkedList → ℕ → ℕ → Bool
matches_of l = is_match l.data_of l.compare

abbrev pub Answers : LinkedList → List ℕ → Operation → Type 0
Answers l xs op =
    (l' : LinkedList) × ((perform l op ≡ some ((answer l.data_of (matches_of l) xs op).0, l'))
      × Holds l l' (answer l.data_of (matches_of l) xs op).1)

-- ===== src/Common/LinkedList.antt =====
-- common/linkedlist.c: the list whose entries lie in a ring through its head.
pub mod Places
pub mod Laws
pub mod Iterator
pub mod Sequence
use my_test_module.Prelude.{
  ℕ, zero, suc, ◌+◌, ◌-◌, ◌%◌, ◌^◌, Bool, true, false, not, ◌&&◌, ◌||◌, Option, none, some, ltb,
  leb, ◌==◌, if◌then◌else◌, ℤ, pos, negsuc,
}
use my_test_module.Common.Ring.{update}
use my_test_module.Common.RcMem.{RcMem, ref, deref}

-- EAGAIN
abbrev pub again : ℕ
again = 11

-- EINVAL
abbrev pub invalid : ℕ
invalid = 22

-- `next`, `prev` and `data_of` are the fields of every entry, by its address (0 is NULL), and `head`
-- is the address of the entry in the list itself. The lists are not shared between threads here:
-- `synced` and the lock are left out.
pub record LinkedList : Type 0 where
  pub head : ℕ
  pub size : ℕ
  pub mod_count : ℕ
  pub compare : Option (ℕ → ℕ → ℤ)
  pub next : ℕ → ℕ
  pub prev : ℕ → ℕ
  pub data_of : ℕ → ℕ
  pub memory : RcMem
  pub errno : ℕ

abbrev pub refuse : LinkedList → LinkedList
refuse l = record l { errno = invalid }

-- `list_create(synced, compare)` at the address `head`, among the entries of `l`. The zeroed memory
-- is never given the comparison.
unfoldable pub list_create : LinkedList → ℕ → Option (ℕ → ℕ → ℤ) → LinkedList
list_create l head compare = record l {
  head = head;
  size = 0;
  mod_count = 0;
  compare = none;
  next = update l.next head head;
  prev = update l.prev head head;
  data_of = update l.data_of head 0;
}

-- `n` steps along a field
unfoldable pub follow : (ℕ → ℕ) → ℕ → ℕ → ℕ
follow f zero cur = cur
follow f (suc n) cur = follow f n (f cur)

-- -(size + 1) ≤ index ≤ size
abbrev pub can_insert : ℕ → ℤ → Bool
can_insert size (pos i) = leb i size
can_insert size (negsuc k) = leb k size

-- -size ≤ index < size
abbrev pub is_index : ℕ → ℤ → Bool
is_index size (pos i) = ltb i size
is_index size (negsuc k) = ltb k size

-- the entry behind which list_insert puts the new one
abbrev pub insert_cursor : LinkedList → ℤ → ℕ
insert_cursor l (pos i) = follow l.next i l.head
insert_cursor l (negsuc k) = follow l.prev (suc k) l.head

-- the entry that list_remove and list_get find
abbrev pub entry_at : LinkedList → ℤ → ℕ
entry_at l (pos i) = follow l.next i (l.next l.head)
entry_at l (negsuc k) = follow l.prev (suc k) l.head

abbrev pub mod_suc : ℕ → ℕ
mod_suc n = (n + 1) % 2 ^ 32

unfoldable pub insert_behind : LinkedList → ℕ → ℕ → LinkedList
insert_behind l cur ent =
    let next1 = update l.next ent (l.next cur) in
    record l {
      memory = ref l.memory (l.data_of ent);
      prev = update (update l.prev ent cur) (next1 cur) ent;
      next = update next1 cur ent;
      size = (l.size + 1) % 2 ^ 64;
      mod_count = mod_suc l.mod_count;
    }

unfoldable pub list_insert : LinkedList → ℤ → ℕ → ℕ × LinkedList
list_insert l index entry =
    if entry == 0 || not (can_insert l.size index)
    then (0, refuse l)
    else (1, insert_behind l (insert_cursor l index) entry)

unfoldable pub unlink : LinkedList → ℕ → LinkedList
unlink l ent =
    let prev1 = update l.prev (l.next ent) (l.prev ent) in
    let next1 = update l.next (prev1 ent) (l.next ent) in
    record l {
      prev = update prev1 ent 0;
      next = update next1 ent 0;
      size = (l.size + (2 ^ 64 - 1)) % 2 ^ 64;
      mod_count = mod_suc l.mod_count;
    }

-- The data is the result, NULL for an error.
unfoldable pub list_remove_entry : LinkedList → ℕ → ℕ × LinkedList
list_remove_entry l ent =
    if ent == 0 || (l.data_of ent == 0 || (l.next ent == 0 || l.prev ent == 0))
    then (0, refuse l)
    else (l.data_of ent, unlink l ent)

unfoldable pub list_remove : LinkedList → ℤ → ℕ × LinkedList
list_remove l index =
    if is_index l.size index
    then (l.data_of (entry_at l index), unlink l (entry_at l index))
    else (0, refuse l)

unfoldable pub list_get : LinkedList → ℤ → ℕ × LinkedList
list_get l index =
    if is_index l.size index
    then (
      l.data_of (entry_at l index),
      record l { memory = ref l.memory (l.data_of (entry_at l index)) },
    )
    else (0, refuse l)

unfoldable pub list_size : LinkedList → ℕ
list_size l = l.size

-- The loop of list_clear_i: it gives up the data of the entries from `ent` on, and has a result
-- where it comes back to the head within the fuel.
unfoldable pub deref_entries : ℕ → LinkedList → ℕ → RcMem → Option RcMem
deref_entries zero l ent m = if ent == l.head then some m else none
deref_entries (suc n) l ent m =
    let rest = deref_entries n l (l.next ent) (deref m (l.data_of ent)) in
    if ent == l.head then some m else rest

abbrev pub cleared_list : LinkedList → RcMem → LinkedList
cleared_list l m = record l {
  memory = m;
  next = update l.next l.head l.head;
  prev = update l.prev l.head l.head;
  size = 0;
  mod_count = mod_suc l.mod_count;
}

abbrev pub cleared : LinkedList → Option RcMem → Option LinkedList
cleared l none = none
cleared l (some m) = some (cleared_list l m)

-- The fuel is the number of entries.
unfoldable pub list_clear : LinkedList → Option LinkedList
list_clear l = cleared l (deref_entries l.size l (l.next l.head) l.memory)

-- the comparison that the list has, or that of the data
abbrev pub is_match : (ℕ → ℕ) → Option (ℕ → ℕ → ℤ) → ℕ → ℕ → Bool
is_match data_of none ent entry = data_of ent == data_of entry
is_match data_of (some compare) ent entry = elim (compare ent entry) [
  | pos i ↦ i == 0
  | negsuc k ↦ false
]

-- The loop of list_find, with `n` entries left of which `ent` is the first
unfoldable pub find_entry : LinkedList → ℕ → ℕ → ℕ → ℕ → ℤ
find_entry l zero ent index entry = negsuc 0
find_entry l (suc n) ent index entry =
    let rest = find_entry l n (l.next ent) (suc index) entry in
    if is_match l.data_of l.compare ent entry then pos index else rest

unfoldable pub list_find : LinkedList → ℕ → ℤ × LinkedList
list_find l entry =
    if entry == 0 || l.data_of entry == 0
    then (negsuc 0, refuse l)
    else (find_entry l l.size (l.next l.head) 0 entry, l)

-- The list that `lst` points to is handed to each operation.
pub record ListIterator : Type 0 where
  pub current : ℕ
  pub next : ℕ
  pub expected_mod_count : ℕ

unfoldable pub list_iterate : LinkedList → ListIterator
list_iterate l = record { current = 0; next = l.next l.head; expected_mod_count = l.mod_count }

-- The return code, the data if there is one, the iterator and the list
unfoldable pub list_iterator_next :
    LinkedList → ListIterator → ℤ × (Option ℕ × (ListIterator × LinkedList))
list_iterator_next l it =
    if it.next == 0
    then (negsuc 0, (none, (it, refuse l)))
    else if not (it.expected_mod_count == l.mod_count)
    then (negsuc 0, (none, (it, record l { errno = again })))
    else if it.next == l.head
    then (pos 0, (none, (it, l)))
    else (
      pos 1,
      (
        some (l.data_of it.next),
        (
          record it { current = it.next; next = l.next it.next },
          record l { memory = ref l.memory (l.data_of it.next) },
        ),
      ),
    )

unfoldable pub list_iterator_has_next : LinkedList → ListIterator → Bool × LinkedList
list_iterator_has_next l it =
    if it.next == 0 then (false, refuse l) else (not (it.next == l.head), l)

-- what is done with the data that list_remove_entry hands back
abbrev pub removed : ListIterator → ℕ × LinkedList → ℤ × (ListIterator × LinkedList)
removed it (ptr, l) = if ptr == 0 then (pos 0, (it, l)) else (
  pos 1,
  (
    record it { current = 0; expected_mod_count = mod_suc it.expected_mod_count },
    record l { memory = deref l.memory ptr },
  ),
)

unfoldable pub list_iterator_remove : LinkedList → ListIterator → ℤ × (ListIterator × LinkedList)
list_iterator_remove l it =
    if it.next == 0 || it.current == 0
    then (negsuc 0, (it, refuse l))
    else if not (it.expected_mod_count == l.mod_count)
    then (negsuc 0, (it, record l { errno = again }))
    else removed it (list_remove_entry l it.current)

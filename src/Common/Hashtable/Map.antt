-- ===== src/Common/Hashtable/Map.antt =====
-- What common/linkedhashtable.h promises: the entries in the order of insertion, one for a key.
use my_test_module.Prelude.{
  ℕ, ◌+◌, ◌^◌, ◌<◌, Bool, true, false, ◌||◌, Option, none, some, List, [], ◌∷◌, length, ◌==◌,
  if◌then◌else◌, ℤ, pos,
}
use my_test_module.Common.Ring.{IsOff}
use my_test_module.Common.Hashtable.{
  Hashtable, is_zero, hashtable_put, hashtable_get, hashtable_exist, hashtable_is_empty,
  hashtable_remove, hashtable_clear,
}
use my_test_module.Common.Hashtable.Places.{lookup, put, delete}

pub data Call : Type 0 where
  put_entry : ℕ → Call
  get : ℕ → ℕ → Call
  exist : ℕ → ℕ → Call
  remove : ℕ → ℕ → Call
  is_empty : Call
  clear : Call

abbrev pub as_int : Bool → ℤ
as_int true = pos 1
as_int false = pos 0

-- The return value of a call, a pointer as the number of its address, and the table after it. There
-- is none for a call that does not end.
unfoldable pub perform : Hashtable → Call → Option (ℤ × Hashtable)
perform t (put_entry e) = let (val, t') = hashtable_put t e in some (pos val, t')
perform t (get k l) = let (val, t') = hashtable_get t k l in some (pos val, t')
perform t (exist k l) = let (b, t') = hashtable_exist t k l in some (as_int b, t')
perform t (remove k l) = let (val, t') = hashtable_remove t k l in some (pos val, t')
perform t is_empty = some (as_int (hashtable_is_empty t), t)
perform t clear = elim (hashtable_clear t) [ none ↦ none | some t' ↦ some (pos 0, t') ]

-- What the calls leave alone: the head, the keys, their lengths and the data of the entries, and the
-- comparison
abbrev pub Fixed : Type 0
Fixed = ℕ × ((ℕ → ℕ) × ((ℕ → ℕ) × ((ℕ → ℕ) × (ℕ → ℕ → ℕ → ℕ → ℤ))))

abbrev pub fixed : Hashtable → Fixed
fixed t = (t.head, (t.key, (t.keylen, (t.data_of, t.key_compare))))

abbrev pub at_key : Fixed → ℕ → ℕ → ℕ → Bool
at_key (h, (key, (keylen, (data_of, compare)))) k l x = is_zero (compare (key x) (keylen x) k l)

abbrev pub data_at : (ℕ → ℕ) → Option ℕ → ℕ
data_at f none = 0
data_at f (some x) = f x

abbrev pub is_there : Option ℕ → Bool
is_there none = false
is_there (some x) = true

abbrev pub no_key : ℕ → ℕ → Bool
no_key k l = k == 0 || l == 0

abbrev pub no_entry : Fixed → ℕ → Bool
no_entry (h, (key, (keylen, (data_of, compare)))) e =
    e == 0 || (key e == 0 || (keylen e == 0 || data_of e == 0))

abbrev pub datum : Fixed → ℕ → ℕ
datum (h, (key, (keylen, (data_of, compare)))) = data_of

abbrev pub key_of : Fixed → ℕ → ℕ → Bool
key_of f e = at_key f (f.1.0 e) (f.1.1.0 e)

-- the answer of a call on the entries, and the entries after it
abbrev pub answer : Fixed → List ℕ → Call → ℤ × List ℕ
answer f xs (put_entry e) =
    if no_entry f e then (pos 0, xs) else (pos (datum f e), put (key_of f e) e xs)
answer f xs (get k l) =
    if no_key k l then (pos 0, xs) else (pos (data_at (datum f) (lookup (at_key f k l) xs)), xs)
answer f xs (exist k l) =
    if no_key k l then (pos 0, xs) else (as_int (is_there (lookup (at_key f k l) xs)), xs)
answer f xs (remove k l) =
    if no_key k l
    then (pos 0, xs)
    else (pos (data_at (datum f) (lookup (at_key f k l) xs)), delete (at_key f k l) xs)
answer f xs is_empty = (as_int (length xs == 0), xs)
answer f xs clear = (pos 0, [])

-- An entry that is put in is not in the table, and there is room for it.
abbrev pub IsAllowed : Fixed → List ℕ → Call → Type 0
IsAllowed f xs (put_entry e) = IsOff e (f.0 ∷ xs) × (length xs + 1 < 2 ^ 64)
IsAllowed f xs (get k l) = Unit
IsAllowed f xs (exist k l) = Unit
IsAllowed f xs (remove k l) = Unit
IsAllowed f xs is_empty = Unit
IsAllowed f xs clear = Unit

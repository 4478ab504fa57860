-- ===== src/Common/Hashtable.antt =====
-- common/linkedhashtable.c: buckets of entries by the hash of their keys, and a ring through all the
-- entries in the order of their insertion.
pub mod Places
pub mod Buckets
pub mod Slots
pub mod Table
pub mod Remove
pub mod Put
pub mod Replace
pub mod Map
pub mod Laws
pub mod Default
pub mod Iterator
use my_test_module.Prelude.{
  ℕ, zero, suc, ◌+◌, ◌-◌, ◌*◌, ◌%◌, ◌^◌, Bool, true, false, not, ◌&&◌, ◌||◌, Option, none, some,
  ltb, ◌==◌, if◌then◌else◌, ℤ, pos, negsuc,
}
use my_test_module.Common.Ring.{update}
use my_test_module.Common.RcMem.{RcMem, ref, deref}
use my_test_module.Common.LinkedList.{again, invalid, mod_suc}

-- The fields of every entry by its address (0 is NULL), among them the address of its key, and the
-- buckets by their index; `head` is the address of the entry in the table itself. The keys that an
-- entry points to stay as they are while the entry is in the table, so the hash and the comparison
-- are functions of the address and the length. One thread is modelled: no lock.
pub record Hashtable : Type 0 where
  pub capacity : ℕ
  pub count : ℕ
  pub mod_count : ℕ
  pub hash : ℕ → ℕ → ℕ
  pub key_compare : ℕ → ℕ → ℕ → ℕ → ℤ
  pub head : ℕ
  pub buckets : ℕ → ℕ
  pub key : ℕ → ℕ
  pub keylen : ℕ → ℕ
  pub data_of : ℕ → ℕ
  pub hash_code : ℕ → ℕ
  pub next : ℕ → ℕ
  pub lst_prev : ℕ → ℕ
  pub lst_next : ℕ → ℕ
  pub memory : RcMem
  pub errno : ℕ

abbrev pub refuse : Hashtable → Hashtable
refuse t = record t { errno = invalid }

-- a `char`, which is signed, as a number of 32 bits
abbrev pub char32 : ℕ → ℕ
char32 c = if ltb c 128 then c else c + (2 ^ 32 - 2 ^ 8)

-- The loop of default_hash_code over the bytes of the key at the address `p`
unfoldable pub hash_bytes : (ℕ → ℕ) → ℕ → ℕ → ℕ → ℕ
hash_bytes byte_at p zero h = h
hash_bytes byte_at p (suc n) h =
    hash_bytes byte_at (suc p) n ((31 * h + char32 (byte_at p)) % 2 ^ 32)

unfoldable pub default_hash_code : (ℕ → ℕ) → ℕ → ℕ → ℕ
default_hash_code byte_at key keylen = hash_bytes byte_at key keylen 0

-- memcmp
unfoldable pub compare_bytes : (ℕ → ℕ) → ℕ → ℕ → ℕ → ℤ
compare_bytes byte_at p q zero = pos 0
compare_bytes byte_at p q (suc n) =
    let rest = compare_bytes byte_at (suc p) (suc q) n in
    if byte_at p == byte_at q
    then rest
    else (if ltb (byte_at p) (byte_at q) then negsuc 0 else pos 1)

unfoldable pub default_key_compare : (ℕ → ℕ) → ℕ → ℕ → ℕ → ℕ → ℤ
default_key_compare byte_at key1 len1 key2 len2 =
    if not (len1 == len2)
    then (if ltb len1 len2 then negsuc 0 else pos 1)
    else compare_bytes byte_at key1 key2 len1

-- `hashtable_create(capacity, …)` at the address `head` among the entries of `t`, whose functions
-- are those that were given or else the default ones
unfoldable pub hashtable_create : Hashtable → ℕ → ℕ → Hashtable
hashtable_create t head capacity = record t {
  capacity = if capacity == 0 then 128 else capacity;
  count = 0;
  mod_count = 0;
  head = head;
  buckets = λ i. 0;
  lst_next = update t.lst_next head head;
  lst_prev = update t.lst_prev head head;
}

-- What a `HashEntry_i **` of the table points to
pub data Slot : Type 0 where
  bucket : ℕ → Slot
  next_of : ℕ → Slot

abbrev pub read_slot : Hashtable → Slot → ℕ
read_slot t (bucket i) = t.buckets i
read_slot t (next_of e) = t.next e

abbrev pub write_slot : Hashtable → Slot → ℕ → Hashtable
write_slot t (bucket i) v = record t { buckets = update t.buckets i v }
write_slot t (next_of e) v = record t { next = update t.next e v }

abbrev pub is_zero : ℤ → Bool
is_zero (pos n) = n == 0
is_zero (negsuc n) = false

abbrev pub is_hit : Hashtable → ℕ → ℕ → ℕ → ℕ → Bool
is_hit t code key keylen e =
    (t.hash_code e == code) && is_zero (t.key_compare (t.key e) (t.keylen e) key keylen)

-- The loop of hashtable_get_entry; a chain is no longer than the table's count.
unfoldable pub find_slot : ℕ → Hashtable → ℕ → ℕ → ℕ → Slot → Option Slot
find_slot zero t code key keylen slot = none
find_slot (suc n) t code key keylen slot =
    let rest = find_slot n t code key keylen (next_of (read_slot t slot)) in
    if read_slot t slot == 0
    then none
    else if is_hit t code key keylen (read_slot t slot)
    then some slot
    else rest

unfoldable pub hashtable_get_entry : Hashtable → ℕ → ℕ → Option Slot
hashtable_get_entry t key keylen =
    let code = t.hash key keylen in find_slot t.count t code key keylen (bucket (code % t.capacity))

unfoldable pub hashtable_add : Hashtable → ℕ → Hashtable
hashtable_add t ent =
    let code = t.hash (t.key ent) (t.keylen ent) in
    let idx = code % t.capacity in
    let prev1 = update t.lst_prev ent (t.lst_prev t.head) in
    let next1 = update t.lst_next ent t.head in
    record t {
      hash_code = update t.hash_code ent code;
      next = update t.next ent (t.buckets idx);
      lst_next = update next1 (prev1 t.head) ent;
      lst_prev = update prev1 t.head ent;
      buckets = update t.buckets idx ent;
      count = (t.count + 1) % 2 ^ 64;
    }

-- The new entry takes the place of the one in the slot.
unfoldable pub replace_entry : Hashtable → Slot → ℕ → Hashtable
replace_entry t slot ent =
    let old = read_slot t slot in
    let prev1 = update t.lst_prev ent (t.lst_prev old) in
    let next1 = update t.lst_next ent (t.lst_next old) in
    let next2 = update next1 (prev1 ent) ent in
    write_slot
      (record t {
        next = update t.next ent (t.next old);
        hash_code = update t.hash_code ent (t.hash_code old);
        lst_next = next2;
        lst_prev = update prev1 (next2 ent) ent;
        memory = deref t.memory (t.data_of old);
      })
      slot ent

abbrev pub put_entry : Hashtable → Option Slot → ℕ → Hashtable
put_entry t none ent = hashtable_add t ent
put_entry t (some slot) ent = replace_entry t slot ent

abbrev pub referred : Hashtable → ℕ → Hashtable
referred t p = record t { memory = ref t.memory p }

abbrev pub counted : Hashtable → Hashtable
counted t = record t { mod_count = mod_suc t.mod_count }

unfoldable pub hashtable_put : Hashtable → ℕ → ℕ × Hashtable
hashtable_put t ent =
    if ent == 0 || (t.key ent == 0 || (t.keylen ent == 0 || t.data_of ent == 0))
    then (0, refuse t)
    else (
      t.data_of ent,
      counted (
          put_entry (referred t (t.data_of ent)) (hashtable_get_entry t (t.key ent) (t.keylen ent))
            ent),
    )

-- the data in the slot with a new reference to it, or NULL
abbrev pub read_data : Hashtable → Option Slot → ℕ × Hashtable
read_data t none = (0, t)
read_data t (some slot) = (t.data_of (read_slot t slot), referred t (t.data_of (read_slot t slot)))

unfoldable pub hashtable_get : Hashtable → ℕ → ℕ → ℕ × Hashtable
hashtable_get t key keylen =
    if key == 0 || keylen == 0
    then (0, refuse t)
    else read_data t (hashtable_get_entry t key keylen)

abbrev pub is_some : Option Slot → Bool
is_some none = false
is_some (some slot) = true

unfoldable pub hashtable_exist : Hashtable → ℕ → ℕ → Bool × Hashtable
hashtable_exist t key keylen =
    if key == 0 || keylen == 0
    then (false, refuse t)
    else (is_some (hashtable_get_entry t key keylen), t)

unfoldable pub hashtable_is_empty : Hashtable → Bool
hashtable_is_empty t = t.count == 0

unfoldable pub unlink_entry : Hashtable → Slot → Hashtable
unlink_entry t slot =
    let gone = read_slot t slot in
    let next1 = update t.lst_next (t.lst_prev gone) (t.lst_next gone) in
    record (write_slot t slot (t.next gone)) {
      lst_next = next1;
      lst_prev = update t.lst_prev (next1 gone) (t.lst_prev gone);
      count = (t.count + (2 ^ 64 - 1)) % 2 ^ 64;
      mod_count = mod_suc t.mod_count;
    }

abbrev pub remove_slot : Hashtable → Option Slot → ℕ × Hashtable
remove_slot t none = (0, t)
remove_slot t (some slot) = (t.data_of (read_slot t slot), unlink_entry t slot)

-- The data of the entry that is taken out, or NULL
unfoldable pub hashtable_remove : Hashtable → ℕ → ℕ → ℕ × Hashtable
hashtable_remove t key keylen =
    if key == 0 || keylen == 0
    then (0, refuse t)
    else remove_slot t (hashtable_get_entry t key keylen)

-- The loop of hashtable_clear_i: it has a result where it comes back to the head within the fuel.
unfoldable pub deref_data : ℕ → Hashtable → ℕ → RcMem → Option RcMem
deref_data zero t ent m = if ent == t.head then some m else none
deref_data (suc n) t ent m =
    let rest = deref_data n t (t.lst_next ent) (deref m (t.data_of ent)) in
    if ent == t.head then some m else rest

abbrev pub emptied : Hashtable → Option RcMem → Option Hashtable
emptied t none = none
emptied t (some m) = some (record t {
  memory = m;
  buckets = λ i. if ltb i t.capacity then 0 else t.buckets i;
  lst_next = update t.lst_next t.head t.head;
  lst_prev = update t.lst_prev t.head t.head;
  count = 0;
  mod_count = mod_suc t.mod_count;
})

unfoldable pub hashtable_clear : Hashtable → Option Hashtable
hashtable_clear t =
    if t.count == 0 then some t else emptied t (deref_data t.count t (t.lst_next t.head) t.memory)

pub record HashtableIterator : Type 0 where
  pub current : ℕ
  pub next : ℕ
  pub expected_mod_count : ℕ

unfoldable pub hashtable_iterate : Hashtable → HashtableIterator
hashtable_iterate t = record {
  current = 0;
  next = t.lst_next t.head;
  expected_mod_count = t.mod_count;
}

-- The return code, the entry whose key, length and data are handed out, the iterator and the table
unfoldable pub hashtable_iterator_next :
    Hashtable → HashtableIterator → ℤ × (Option ℕ × (HashtableIterator × Hashtable))
hashtable_iterator_next t it =
    if it.next == 0
    then (negsuc 0, (none, (it, refuse t)))
    else if not (it.expected_mod_count == t.mod_count)
    then (negsuc 0, (none, (it, record t { errno = again })))
    else if it.next == t.head
    then (pos 0, (none, (it, t)))
    else (
      pos 1,
      (
        some it.next,
        (
          record it { current = it.next; next = t.lst_next it.next },
          referred t (t.data_of it.next),
        ),
      ),
    )

unfoldable pub hashtable_iterator_has_next : Hashtable → HashtableIterator → Bool × Hashtable
hashtable_iterator_has_next t it =
    if it.next == 0 then (false, refuse t) else (not (it.next == t.head), t)

abbrev pub entry_removed : HashtableIterator → ℕ × Hashtable → ℤ × (HashtableIterator × Hashtable)
entry_removed it (ptr, t) = if ptr == 0 then (pos 0, (it, t)) else (
  pos 1,
  (
    record it { current = 0; expected_mod_count = mod_suc it.expected_mod_count },
    record t { memory = deref t.memory ptr },
  ),
)

unfoldable pub hashtable_iterator_remove :
    Hashtable → HashtableIterator → ℤ × (HashtableIterator × Hashtable)
hashtable_iterator_remove t it =
    if it.next == 0 || it.current == 0
    then (negsuc 0, (it, refuse t))
    else if not (it.expected_mod_count == t.mod_count)
    then (negsuc 0, (it, record t { errno = again }))
    else entry_removed it (hashtable_remove t (t.key it.current) (t.keylen it.current))

-- ===== src/Tests/Tables.antt =====
-- common/linkedhashtable.c on a table of two buckets with its default hash and comparison. The
-- addresses of the entries are 1 to 4, the head's is 50; the key of an entry is the byte at its
-- address and 100, so that the entries 1 and 4 have one key, and its data are at its address and 200.
use my_test_module.Prelude.{ℕ, ◌+◌, ◌%◌, ◌≡◌, refl, some, List, [], ◌∷◌, arith, pos}
use my_test_module.Tests.Lists.{no_memory}
use my_test_module.Common.Hashtable
use my_test_module.Common.Hashtable.{
  Hashtable, hashtable_create, default_hash_code, default_key_compare, hashtable_iterate,
  hashtable_add,
}
use my_test_module.Common.Hashtable.Table.{IsTable}
use my_test_module.Common.Hashtable.Map.{Call, put_entry, get, exist, remove, is_empty, fixed}
use my_test_module.Common.Hashtable.Laws.Calls.{run, run-run_map, AreAllowed}
use my_test_module.Common.Hashtable.Default.{default-IsKeys}
use my_test_module.Common.Hashtable.Iterator.{visit, visit_lem}
use my_test_module.Common.Hashtable.Put.{hashtable_add-IsTable, added, IsFresh}

abbrev byte_at : ℕ → ℕ
byte_at p = p % 3

abbrev nothing : Hashtable
nothing = record {
  capacity = 0;
  count = 0;
  mod_count = 0;
  hash = default_hash_code byte_at;
  key_compare = default_key_compare byte_at;
  head = 0;
  buckets = λ i. 0;
  key = λ p. p + 100;
  keylen = λ p. 1;
  data_of = λ p. p + 200;
  hash_code = λ p. 0;
  next = λ p. 0;
  lst_prev = λ p. 0;
  lst_next = λ p. 0;
  memory = no_memory;
  errno = 0;
}

abbrev empty_table : Hashtable
empty_table = hashtable_create nothing 50 2

empty_table-IsTable : IsTable empty_table []
unfolding hashtable_create
empty_table-IsTable = record {
  counted = refl;
  bounded = omega arith;
  sized = omega arith;
  ring = (refl, (refl, (tt, tt)));
  real = tt;
  apart = tt;
  keys = default-IsKeys byte_at;
  chains = λ i lt. (refl, tt);
}

abbrev calls : List Call
calls =
    put_entry 1
    ∷ put_entry 2
    ∷ put_entry 3
    ∷ put_entry 4
    ∷ get 101 1
    ∷ remove 102 1
    ∷ exist 102 1
    ∷ get 0 1
    ∷ is_empty
    ∷ []

calls_allowed : AreAllowed (fixed empty_table) calls []
unfolding hashtable_create Hashtable.default_key_compare Hashtable.compare_bytes
calls_allowed = (
  (((λ e. omega arith), tt), omega arith),
  (
    (((λ e. omega arith), ((λ e. omega arith), tt)), omega arith),
    (
      (((λ e. omega arith), ((λ e. omega arith), ((λ e. omega arith), tt))), omega arith),
      (
        (
          (
            (λ e. omega arith),
            ((λ e. omega arith), ((λ e. omega arith), ((λ e. omega arith), tt))),
          ),
          omega arith,
        ),
        (tt, (tt, (tt, (tt, (tt, tt))))),
      ),
    ),
  ),
)

-- The fourth entry takes the place of the first.
run-run_map_example :
    (t : Hashtable) × ((run calls empty_table
        ≡ some (
          pos 201 ∷ pos 202 ∷ pos 203 ∷ pos 204 ∷ pos 204 ∷ pos 202 ∷ pos 0 ∷ pos 0 ∷ pos 0 ∷ [],
          t,
        ))
      × IsTable t (4 ∷ 3 ∷ []))
unfolding hashtable_create Hashtable.default_key_compare Hashtable.compare_bytes
run-run_map_example = run-run_map calls empty_table [] empty_table-IsTable calls_allowed

IsFresh-first : IsFresh empty_table [] 1
unfolding hashtable_create
IsFresh-first = (
  ((λ e. omega arith), tt),
  ((λ e. omega arith), ((λ e. omega arith), ((λ e. omega arith), (λ e. omega arith)))),
)

abbrev one_entry : Hashtable
one_entry = added empty_table [] 1 empty_table-IsTable IsFresh-first

visit_lem_example : visit 2 one_entry (hashtable_iterate one_entry) ≡ some (1 ∷ [], pos 0)
unfolding hashtable_create
visit_lem_example =
    visit_lem 2 one_entry (1 ∷ [])
      (hashtable_add-IsTable empty_table [] 1 empty_table-IsTable IsFresh-first tt (omega arith)).1
      (λ e. omega arith) (omega arith)

default-IsKeys_example :
    Hashtable.Table.IsKeys (default_hash_code byte_at) (default_key_compare byte_at)
default-IsKeys_example = default-IsKeys byte_at

-- ===== src/Common/IdsHeap.antt =====
-- common/ids_heap.c: ids from 1 to a maximum, handed out round robin from a bit set.
pub mod Alloc
pub mod Free
use my_test_module.Prelude.{
  ℕ, ◌+◌, ◌-◌, ◌%◌, Bool, true, false, not, Option, none, some, ◌==◌, if◌then◌else◌, ◌&&◌,
}
use my_test_module.Prelude.Returns.{Code, value, fail}
use my_test_module.Common.Bitset.{
  Bitset, IntShift, bitset_init, bitset_set, bitset_clear, bitset_isset, bitset_next_clear_bit,
}

abbrev pub edeadlk : ℕ
edeadlk = 35

-- `lockable` says whether pthread_mutex_lock succeeds on `bitset_lock`; a `latest_index` of -1 is
-- `none`.
pub record IdsHeap : Type 0 where
  pub lockable : Bool
  pub latest_index : Option ℕ
  pub max_index : ℕ
  pub bitset_ids : Bitset

-- `latest_index + 1`
abbrev pub after_latest : IdsHeap → ℕ
after_latest h = elim h.latest_index [ none ↦ 0 | some i ↦ i + 1 ]

-- `made` says whether pthread_mutex_init succeeds; `none` is -ENOMEM.
unfoldable pub ids_heap_init : Bool → ℕ → Option IdsHeap
ids_heap_init made max_index =
    if not made
    then none
    else some (record {
      lockable = true;
      latest_index = none;
      max_index = max_index;
      bitset_ids = bitset_init max_index;
    })

-- the search from `from`, and again from the start
unfoldable pub find_clear : Bitset → ℕ → Option ℕ
find_clear ids from = elim (bitset_next_clear_bit ids from) [
  | none ↦ if from == 0 then none else bitset_next_clear_bit ids 0
  | some pos ↦ some pos
]

-- -1 when no id is left.
unfoldable pub ids_heap_alloc : IdsHeap → IdsHeap × Code
ids_heap_alloc h =
    if not h.lockable
    then (h, fail edeadlk)
    else elim (find_clear h.bitset_ids (after_latest h % h.max_index)) [
      | none ↦ (h, fail 1)
      | some pos ↦ (
        record h { latest_index = some pos; bitset_ids = (bitset_set h.bitset_ids pos).0 },
        value (pos + 1),
      )
    ]

-- `bitset_isset(…)` as a condition: -1 counts as true.
abbrev pub is_true : Option Bool → Bool
is_true none = true
is_true (some b) = b

-- An id is at least 1, as the function asserts.
unfoldable pub ids_heap_free : IntShift → IdsHeap → ℕ → IdsHeap × Code
ids_heap_free shift h id =
    if not h.lockable
    then (h, fail edeadlk)
    else if is_true (bitset_isset shift h.bitset_ids (id - 1))
    then (record h { bitset_ids = (bitset_clear h.bitset_ids (id - 1)).0 }, value 0)
    else (h, value 0)

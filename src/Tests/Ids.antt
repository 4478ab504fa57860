-- ===== src/Tests/Ids.antt =====
-- common/bitset.h and common/ids_heap.c on a heap of 70 ids.
use my_test_module.Prelude.{◌≡◌, refl, true, false, none, some, arith}
use my_test_module.Prelude.Returns.{value, fail}
use my_test_module.Common.Bitset
use my_test_module.Common.Bitset.{
  Bitset, bitset_init, bitset_set, bitset_clear, bitset_next_clear_bit,
}
use my_test_module.Common.Bitset.Laws.{
  bit_at, bitset_init-IsValid, bitset_set_lem, bitset_clear_lem, bit_at-init,
}
use my_test_module.Common.Bitset.Search.{FirstClear, bitset_next_clear_bit_lem}
use my_test_module.Common.Bitset.Isset.{masked_shift}
use my_test_module.Common.IdsHeap
use my_test_module.Common.IdsHeap.{
  IdsHeap, ids_heap_init, ids_heap_alloc, ids_heap_free, find_clear,
}
use my_test_module.Common.IdsHeap.Alloc.{
  in_use, Allocated, ids_heap_init_lem, ids_heap_alloc_lem, ids_heap_alloc-IsValid,
}
use my_test_module.Common.IdsHeap.Free.{ids_heap_free_lem, ids_heap_free_leak}

-- the first bit of 70 is on
abbrev pub one_bit : Bitset
one_bit = (bitset_set (bitset_init 70) 0).0

one_bit-IsValid : Bitset.Laws.IsValid one_bit
one_bit-IsValid = (bitset_set_lem (bitset_init 70) 0 0 (bitset_init-IsValid 70)).3

one_bit-size : one_bit.size ≡ 70
unfolding bitset_set bitset_init
one_bit-size = refl

next_clear_run : bitset_next_clear_bit one_bit 0 ≡ some 1
unfolding bitset_next_clear_bit bitset_set bitset_init Bitset.next_clear Bitset.nonzero
    Bitset.mask_from Bitset.ctz
next_clear_run = refl

bitset_next_clear_bit_lem_example : FirstClear one_bit 0 (bitset_next_clear_bit one_bit 0)
unfolding bitset_set bitset_init
bitset_next_clear_bit_lem_example =
    bitset_next_clear_bit_lem one_bit 0 one_bit-IsValid (omega arith)

abbrev pub fresh_ids : IdsHeap
fresh_ids = record {
  lockable = true;
  latest_index = none;
  max_index = 70;
  bitset_ids = bitset_init 70;
}

pub fresh_ids-IsValid : IdsHeap.Alloc.IsValid fresh_ids
unfolding ids_heap_init
fresh_ids-IsValid = (ids_heap_init_lem 70 {h = fresh_ids} (omega arith) refl).0

ids_heap_alloc_lem_example : Allocated fresh_ids (ids_heap_alloc fresh_ids)
ids_heap_alloc_lem_example = ids_heap_alloc_lem fresh_ids fresh_ids-IsValid

-- the id 1 is in use
abbrev pub one_id : IdsHeap
one_id = record fresh_ids { latest_index = some 0; bitset_ids = one_bit }

pub one_id-IsValid : IdsHeap.Alloc.IsValid one_id
one_id-IsValid = record {
  lockable = refl;
  set_valid = one_bit-IsValid;
  sized = one_bit-size;
  positive = omega arith;
}

ids_heap_free_lem_example : in_use (ids_heap_free masked_shift one_id 1).0 1 ≡ false
ids_heap_free_lem_example =
    ids_heap_free_lem masked_shift one_id 1 one_id-IsValid (omega arith) (omega arith) (omega arith)

-- the id 40 alone is in use
abbrev high_id : IdsHeap
high_id = record fresh_ids {
  latest_index = some 39;
  bitset_ids = (bitset_set (bitset_init 70) 39).0;
}

high_id-IsValid : IdsHeap.Alloc.IsValid high_id
unfolding bitset_set bitset_init
high_id-IsValid = record {
  lockable = refl;
  set_valid = (bitset_set_lem (bitset_init 70) 39 0 (bitset_init-IsValid 70)).3;
  sized = refl;
  positive = omega arith;
}

ids_heap_free_leak_example : ids_heap_free masked_shift high_id 40 ≡ (high_id, value 0)
unfolding bitset_set bitset_init
ids_heap_free_leak_example =
    ids_heap_free_leak high_id 40 high_id-IsValid (omega arith) (omega arith) (omega arith)
      (omega arith) refl

pub fresh_run : ids_heap_alloc fresh_ids ≡ (one_id, value 1)
unfolding ids_heap_alloc find_clear bitset_next_clear_bit bitset_set bitset_init Bitset.next_clear
    Bitset.nonzero Bitset.mask_from Bitset.ctz
fresh_run = refl

-- the ids 1 and 2 are in use
abbrev pub two_ids : IdsHeap
two_ids = record fresh_ids { latest_index = some 1; bitset_ids = (bitset_set one_bit 1).0 }

pub one_run : ids_heap_alloc one_id ≡ (two_ids, value 2)
unfolding ids_heap_alloc find_clear bitset_next_clear_bit bitset_set bitset_init Bitset.next_clear
    Bitset.nonzero Bitset.mask_from Bitset.ctz
one_run = refl

-- a heap of one id, which is in use
abbrev pub full_ids : IdsHeap
full_ids = record {
  lockable = true;
  latest_index = some 0;
  max_index = 1;
  bitset_ids = (bitset_set (bitset_init 1) 0).0;
}

pub full_run : ids_heap_alloc full_ids ≡ (full_ids, fail 1)
unfolding ids_heap_alloc find_clear bitset_next_clear_bit bitset_set bitset_init Bitset.next_clear
    Bitset.nonzero Bitset.mask_from Bitset.ctz
full_run = refl

pub one_id-in_use : in_use one_id 1 ≡ true
unfolding bitset_set bitset_init
one_id-in_use = refl

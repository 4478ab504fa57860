-- ===== src/Common/IdsHeap/Free.antt =====
-- ids_heap_free: what it gives back, and what it leaks.
use my_test_module.Prelude.{
  ℕ, ◌-◌, ◌%◌, ◌<◌, ◌≤◌, ◌≡◌, ◌≢◌, refl, false, some, arith, inl, inr, Bool-cases, ◌∙◌, ap,
}
use my_test_module.Prelude.Returns.{value}
use my_test_module.Common.Bitset.{IntShift, bitset_isset}
use my_test_module.Common.Bitset.Laws.{bit_at, bitset_clear_lem}
use my_test_module.Common.Bitset.Isset.{bitset_isset_lem, bitset_isset_masked, masked_shift}
use my_test_module.Common.IdsHeap.{IdsHeap, is_true, ids_heap_free}
use my_test_module.Common.IdsHeap.Alloc.{IsValid, in_use}

module _ (shift : IntShift) (h : IdsHeap) (id : ℕ) (v : IsValid h) (pos : 0 < id)
    (le : id ≤ h.max_index) where
  -- the position is below the size
  inside : id - 1 < h.bitset_ids.size
  inside = omega (arith, v.sized)

  -- On a well-formed heap and for an id from 1 to the maximum, whatever the machine's shift gives,
  -- ids_heap_free reports success, keeps the heap well formed, leaves every other id alone, and
  -- never brings the id into use.
  pub ids_heap_free_others :
      let (h', rc) = ids_heap_free shift h id in
      (rc ≡ value 0)
      × IsValid h'
      × (h'.max_index ≡ h.max_index)
      × ((j : ℕ) → 0 < j → id ≢ j → in_use h' j ≡ in_use h j)
      × (in_use h id ≡ false → in_use h' id ≡ false)
  unfolding ids_heap_free
  ids_heap_free_others = elim (Bool-cases (is_true (bitset_isset shift h.bitset_ids (id - 1)))) [
    | inl e ↦
        let own = bitset_clear_lem h.bitset_ids (id - 1) (id - 1) v.set_valid in
        simp (v.lockable, e)
          (
            refl,
            record {
              lockable = refl;
              set_valid = own.3;
              sized = own.2 ∙ v.sized;
              positive = v.positive;
            },
            refl,
            λ j p ne. ground (arith, bitset_clear_lem h.bitset_ids (id - 1) (j - 1) v.set_valid),
            λ off. ground (arith, own, inside),
          )
    | inr e ↦ simp (v.lockable, e) (refl, v, refl, λ j p ne. refl, λ off. off)
  ]

  -- On a well-formed heap, an id from 1 to the maximum whose offset in its word is below 31 is no
  -- longer in use after ids_heap_free.
  pub ids_heap_free_lem : (id - 1) % 64 < 31 → in_use (ids_heap_free shift h id).0 id ≡ false
  unfolding ids_heap_free
  ids_heap_free_lem low = ground (
    arith,
    v.lockable,
    inside,
    bitset_isset_lem shift h.bitset_ids (id - 1) inside low,
    bitset_clear_lem h.bitset_ids (id - 1) (id - 1) v.set_valid,
  )

-- On a machine that shifts 32-bit values modulo 32, freeing an id of a well-formed heap whose
-- offset in its word lies between 32 and 62 changes nothing, unless the id 32 below it is in use.
pub ids_heap_free_leak :
    (h : IdsHeap) (id : ℕ)
    → IsValid h
    → 0 < id
    → id ≤ h.max_index
    → 31 < (id - 1) % 64
    → (id - 1) % 64 < 63
    → in_use h (id - 32) ≡ false
    → ids_heap_free masked_shift h id ≡ (h, value 0)
unfolding ids_heap_free
ids_heap_free_leak h id v pos le low high off =
    let e : id - 1 - 32 ≡ id - 32 - 1 = omega arith in
    let isset =
      bitset_isset_masked h.bitset_ids (id - 1) (omega (arith, v.sized)) low high
      ∙ ap some (ap (bit_at h.bitset_ids) e ∙ off) in
    simp (v.lockable, isset)

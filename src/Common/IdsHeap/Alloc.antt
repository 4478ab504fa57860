-- ===== src/Common/IdsHeap/Alloc.antt =====
-- ids_heap_alloc: what it hands out.
use my_test_module.Prelude.{
  ℕ, ◌+◌, ◌-◌, ◌%◌, ◌<◌, ◌≤◌, ◌≡◌, refl, Bool, true, false, Option, none, some, arith, inl, inr,
  ◌==◌, if◌then◌else◌, Option-cases, ==_of_eq, ==_of_ne, ◌∙◌,
}
use my_test_module.Prelude.Returns.{Code, value, fail}
use native.Mathlib.Decide.{ℕ_discrete}
use mathlib.Core.Path.{subst}
use mathlib.Core.Option.{some-injective}
use my_test_module.Common.Bitset
use my_test_module.Common.Bitset.{Bitset, bitset_set, bitset_next_clear_bit}
use my_test_module.Common.Bitset.Laws.{
  bit_at, bitset_set_lem, bitset_init-IsValid, bit_at-init, size-init,
}
use my_test_module.Common.Bitset.Search.{AllOn, FirstClear, bitset_next_clear_bit_lem}
use my_test_module.Common.IdsHeap.{IdsHeap, after_latest, ids_heap_init, find_clear, ids_heap_alloc}

pub record IsValid (h : IdsHeap) : Type 0 where
  pub lockable : h.lockable ≡ true
  pub set_valid : Bitset.Laws.IsValid h.bitset_ids
  pub sized : h.bitset_ids.size ≡ h.max_index
  pub positive : 0 < h.max_index

-- an id is in use when its bit is on
abbrev pub in_use : IdsHeap → ℕ → Bool
in_use h id = bit_at h.bitset_ids (id - 1)

-- What the call may hand back: a fresh id in range, which alone comes into use; or -1 with the heap
-- unchanged, when every id is in use.
abbrev pub Allocated : IdsHeap → IdsHeap × Code → Type 0
Allocated h (h', value id) =
    (0 < id)
    × (id ≤ h.max_index)
    × (in_use h id ≡ false)
    × ((j : ℕ) → 0 < j → in_use h' j ≡ (if id == j then true else in_use h j))
    × (h'.max_index ≡ h.max_index)
Allocated h (h', fail e) =
    (e ≡ 1) × (h' ≡ h) × ((j : ℕ) → 0 < j → j ≤ h.max_index → in_use h j ≡ true)

-- A clear position of the set, or none.
abbrev Clear : Bitset → Option ℕ → Type 0
Clear s none = AllOn s 0 s.size
Clear s (some p) = (p < s.size) × (bit_at s p ≡ false)

Clear-of_FirstClear :
    (s : Bitset) (from : ℕ) (o : Option ℕ) → FirstClear s from o → from ≡ 0 → Clear s o
Clear-of_FirstClear s from none f z = λ m le. f m (omega arith)
Clear-of_FirstClear s from (some p) f z = (f.1, f.2)

find_clear_lem :
    (s : Bitset) (from : ℕ) → Bitset.Laws.IsValid s → from < s.size → Clear s (find_clear s from)
unfolding find_clear
find_clear_lem s from v h = elim (Option-cases (bitset_next_clear_bit s from)) [
  | inl e ↦ elim (ℕ_discrete from 0) [
    | yes z ↦
        rw (e, find_clear, ==_of_eq _ _ z)
          (Clear-of_FirstClear s from none (rw e at (bitset_next_clear_bit_lem s from v h)) z)
    | no z ↦
        rw (e, find_clear, ==_of_ne _ _ z)
          (Clear-of_FirstClear s 0 _ (bitset_next_clear_bit_lem s 0 v (omega arith)) refl)
  ]
  | inr (p, e) ↦
      let found : FirstClear s from (some p) = rw e at (bitset_next_clear_bit_lem s from v h) in
      rw (e, find_clear) (found.1, found.2)
]

module _ (h : IdsHeap) (v : IsValid h) where
  from_in_range : after_latest h % h.max_index < h.bitset_ids.size
  from_in_range = omega (arith, v.sized, v.positive)

  -- what is handed out for a clear position
  alloc_some :
      (p : ℕ)
      → p < h.bitset_ids.size
      → bit_at h.bitset_ids p ≡ false
      → Allocated h (
        record h { latest_index = some p; bitset_ids = (bitset_set h.bitset_ids p).0 },
        value (p + 1),
      )
  alloc_some p lt off = (
    omega arith,
    omega (arith, v.sized),
    let e : p + 1 - 1 ≡ p = omega arith in rw e off,
    λ j pos. ground (arith, bitset_set_lem h.bitset_ids p (j - 1) v.set_valid),
    refl,
  )

  -- On a well-formed heap, ids_heap_alloc hands out an id from 1 to the maximum that is not in use
  -- and brings that one alone into use, or it answers -1, which happens only when every id is in
  -- use, and changes nothing.
  pub ids_heap_alloc_lem : Allocated h (ids_heap_alloc h)
  unfolding ids_heap_alloc
  ids_heap_alloc_lem =
      let from = after_latest h % h.max_index in
      let clear = find_clear_lem h.bitset_ids from v.set_valid from_in_range in
      elim (Option-cases (find_clear h.bitset_ids from)) [
        | inl e ↦
            let all : AllOn h.bitset_ids 0 h.bitset_ids.size = rw e at clear in
            simp (v.lockable, e)
              (refl, refl, λ j pos le. all (j - 1) (omega arith) (omega (arith, v.sized)))
        | inr (p, e) ↦
            let c : Clear h.bitset_ids (some p) = rw e at clear in
            simp (v.lockable, e) (alloc_some p c.0 c.1)
      ]

  -- ids_heap_alloc keeps a well-formed heap well formed.
  pub ids_heap_alloc-IsValid : IsValid (ids_heap_alloc h).0
  unfolding ids_heap_alloc
  ids_heap_alloc-IsValid =
      elim (Option-cases (find_clear h.bitset_ids (after_latest h % h.max_index))) [
        | inl e ↦ rw (v.lockable, e) v
        | inr (p, e) ↦
            let kept = bitset_set_lem h.bitset_ids p 0 v.set_valid in
            rw (v.lockable, e)
              (record {
                lockable = v.lockable;
                set_valid = kept.3;
                sized = kept.2 ∙ v.sized;
                positive = v.positive;
              })
      ]

-- Where the lock can be made and the maximum is positive, ids_heap_init gives a well-formed heap of
-- that maximum with no id in use.
pub ids_heap_init_lem :
    (max : ℕ) {h : IdsHeap}
    → 0 < max
    → ids_heap_init true max ≡ some h
    → IsValid h × ((j : ℕ) → in_use h j ≡ false) × (h.max_index ≡ max)
unfolding ids_heap_init
ids_heap_init_lem max {h} pos e =
    subst (λ g. IsValid g × ((j : ℕ) → in_use g j ≡ false) × (g.max_index ≡ max))
      (some-injective _ _ e)
      (
        record {
          lockable = refl;
          set_valid = bitset_init-IsValid max;
          sized = size-init max;
          positive = pos;
        },
        λ j. bit_at-init max (j - 1),
        refl,
      )

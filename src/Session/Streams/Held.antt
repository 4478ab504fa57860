-- ===== src/Session/Streams/Held.antt =====
-- The streams of a session and the heap of ids: every stream has an id that was handed out.
use my_test_module.Prelude.{All-map, ℕ, ◌≡◌, ◌≢◌, sym, ◌∙◌, false, List, [], ◌∷◌, ◌++◌, All, arith}
use mathlib.Core.Path.{subst}
use my_test_module.Prelude.Returns.{value, fail}
use my_test_module.Common.IdsHeap
use my_test_module.Common.IdsHeap.{IdsHeap, ids_heap_alloc, ids_heap_free}
use my_test_module.Common.IdsHeap.Alloc.{
  in_use, ids_heap_alloc_lem, ids_heap_alloc-IsValid, Allocated,
}
use my_test_module.Common.IdsHeap.Free.{ids_heap_free_others}
use my_test_module.Session.Channels.Laws.{All-zip}
use my_test_module.Session.Multiplex.Validity.{Owns}
use my_test_module.Session.Streams.{Stream, Session, Env, remove_entry}
use my_test_module.Session.Streams.Entries.{
  Free, IsDistinct, All-snoc, IsDistinct-snoc, All-remove_entry, IsDistinct-remove_entry,
}

pub record Held (ss : List Stream) (ids : IdsHeap) : Type 0 where
  pub ids_valid : IdsHeap.Alloc.IsValid ids
  pub owned : All (λ (s : Stream). Owns ids s.id) ss
  pub distinct : IsDistinct ss

abbrev pub IsValid : Session → Type 0
IsValid w = Held w.streams w.stream_ids

-- A fresh id is in use from then on, and no stream has it.
pub Held-alloc :
    {ss : List Stream} {ids ids' : IdsHeap} {id : ℕ}
    → Held ss ids
    → ids_heap_alloc ids ≡ (ids', value id)
    → Held ss ids' × (Owns ids' id × (Free ss id × (in_use ids id ≡ false)))
Held-alloc {ss} {ids} {ids'} {id} v e =
    let fresh : Allocated ids (ids', value id) = rw e at (ids_heap_alloc_lem ids v.ids_valid) in
    let valid : IdsHeap.Alloc.IsValid ids' = rw e at (ids_heap_alloc-IsValid ids v.ids_valid) in
    (
      record {
        ids_valid = valid;
        owned =
            All-map (λ (s : Stream). Owns ids s.id) (λ (s : Stream). Owns ids' s.id) ss
              (λ s own. (own.0, omega (arith, own, fresh), ground (arith, own, fresh.3 s.id)))
              v.owned;
        distinct = v.distinct;
      },
      (
        (omega (arith, fresh), omega (arith, fresh), ground (arith, fresh, fresh.3 id)),
        (
          All-map (λ (s : Stream). Owns ids s.id) (λ (s : Stream). s.id ≢ id) ss
              (λ s own q. ground (arith, own, fresh, q)) v.owned,
          ground (arith, fresh),
        ),
      ),
    )

-- Without an id left nothing changes.
pub Held-refused :
    {ss : List Stream} {ids ids' : IdsHeap} {e : ℕ}
    → Held ss ids
    → ids_heap_alloc ids ≡ (ids', fail e)
    → Held ss ids'
Held-refused {ss} {ids} {ids'} {e} v r =
    let full : Allocated ids (ids', fail e) = rw r at (ids_heap_alloc_lem ids v.ids_valid) in
    subst (λ i. Held ss i) (sym full.1) v

-- An id that no stream has goes back.
pub Held-release :
    (env : Env) (ss : List Stream) (ids : IdsHeap) (id : ℕ)
    → Held ss ids
    → Owns ids id
    → Free ss id
    → Held ss (ids_heap_free env.shift ids id).0
Held-release env ss ids id v own away =
    let freed = (ids_heap_free env.shift ids id).0 in
    let (_, valid, size, others, _) =
      ids_heap_free_others env.shift ids id v.ids_valid own.0 own.1 in
    record {
      ids_valid = valid;
      owned =
          All-zip (λ (s : Stream). Owns ids s.id) (λ (s : Stream). s.id ≢ id)
            (λ (s : Stream). Owns freed s.id) ss
            (λ s o ne. (o.0, omega (arith, o, size), others s.id o.0 (λ q. ne (sym q)) ∙ o.2))
            v.owned away;
      distinct = v.distinct;
    }

pub Held-snoc :
    (ss : List Stream) (ids : IdsHeap) (s : Stream)
    → Held ss ids
    → Owns ids s.id
    → Free ss s.id
    → Held (ss ++ (s ∷ [])) ids
Held-snoc ss ids s v own away = record {
  ids_valid = v.ids_valid;
  owned = All-snoc (λ (t : Stream). Owns ids t.id) ss s v.owned own;
  distinct = IsDistinct-snoc ss s v.distinct away;
}

pub Held-remove_entry :
    (ss : List Stream) (ids : IdsHeap) (id : ℕ) → Held ss ids → Held (remove_entry ss id) ids
Held-remove_entry ss ids id v = record {
  ids_valid = v.ids_valid;
  owned = All-remove_entry (λ (t : Stream). Owns ids t.id) ss id v.owned;
  distinct = (IsDistinct-remove_entry ss id v.distinct).0;
}

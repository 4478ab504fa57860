-- ===== src/Session/Multiplex/Validity.antt =====
-- The invariant of a handler of session/multiplex_handler.c: channels and ids agree.
use my_test_module.Prelude.{
  All-map, ℕ, ◌%◌, ◌^◌, ◌<◌, ◌≤◌, ◌≡◌, ◌≢◌, refl, true, some, arith, All, ◌==◌, ==_of_ne, ◌∙◌,
  if_both,
}
use my_test_module.Prelude.Returns.{value, fail}
use my_test_module.Common.IdsHeap
use my_test_module.Common.IdsHeap.{IdsHeap, ids_heap_alloc, ids_heap_free}
use my_test_module.Common.IdsHeap.Alloc.{
  in_use, ids_heap_alloc_lem, ids_heap_alloc-IsValid, Allocated,
}
use my_test_module.Common.IdsHeap.Free.{ids_heap_free_others}
use my_test_module.Session.Channels.{
  Channel, Channels, channels_put, channels_get, channels_remove, channels_update,
}
use my_test_module.Session.Channels.Laws.{
  IsDistinct, All-put, All-update, All-remove, All-zip, P_of_get, IsDistinct-put, IsDistinct-update,
  IsDistinct-remove,
}
use my_test_module.Session.Multiplex.{MultiplexHandler, Env, drop_channel}

-- The id of a channel is one that the heap has handed out.
abbrev pub Owns : IdsHeap → ℕ → Type 0
Owns ids id = (0 < id) × (id ≤ ids.max_index) × (in_use ids id ≡ true)

pub record Agree (channels : Channels) (ids : IdsHeap) : Type 0 where
  pub ids_valid : IdsHeap.Alloc.IsValid ids
  pub narrow : ids.max_index < 2 ^ 16
  pub owned : All (λ (c : Channel). Owns ids c.id) channels
  pub distinct : IsDistinct channels

abbrev pub IsValid : MultiplexHandler → Type 0
IsValid h = Agree h.channels h.channel_ids

-- A write through a pointer to a channel keeps its id.
pub Agree-update :
    {channels : Channels} {ids : IdsHeap} (ch : Channel)
    → Agree channels ids
    → Owns ids ch.id
    → Agree (channels_update channels ch) ids
Agree-update {channels} {ids} ch v own = record {
  ids_valid = v.ids_valid;
  narrow = v.narrow;
  owned = All-update (λ (c : Channel). Owns ids c.id) channels ch v.owned own;
  distinct = IsDistinct-update channels ch v.distinct;
}

-- A fresh id goes to a new channel.
pub Agree-put :
    {channels : Channels} {ids ids' : IdsHeap} {id : ℕ} (ch : Channel)
    → Agree channels ids
    → ids_heap_alloc ids ≡ (ids', value id)
    → ch.id ≡ id
    → Agree (channels_put channels ch) ids'
Agree-put {channels} {ids} {ids'} {id} ch v e same =
    let fresh : Allocated ids (ids', value id) = rw e at (ids_heap_alloc_lem ids v.ids_valid) in
    let valid : IdsHeap.Alloc.IsValid ids' = rw e at (ids_heap_alloc-IsValid ids v.ids_valid) in
    record {
      ids_valid = valid;
      narrow = omega (arith, v.narrow, fresh);
      owned =
          All-put (λ (c : Channel). Owns ids' c.id) channels ch
            (All-map (λ (c : Channel). Owns ids c.id) (λ (c : Channel). Owns ids' c.id) channels
              (λ c own. (own.0, omega (arith, own, fresh), ground (arith, own, fresh.3 c.id)))
              v.owned)
            (omega (arith, fresh), omega (arith, fresh), ground (arith, fresh, fresh.3 ch.id));
      distinct = IsDistinct-put channels ch v.distinct;
    }

-- what the heap hands out is in range and in use
pub Owns-alloc :
    {channels : Channels} {ids ids' : IdsHeap} {id : ℕ}
    → Agree channels ids
    → ids_heap_alloc ids ≡ (ids', value id)
    → Owns ids' id × (id % 2 ^ 16 ≡ id)
Owns-alloc {ids} {ids'} {id} v e =
    let fresh : Allocated ids (ids', value id) = rw e at (ids_heap_alloc_lem ids v.ids_valid) in
    (
      (fresh.0, omega (arith, fresh), ground (arith, fresh, fresh.3 id)),
      omega (arith, fresh, v.narrow),
    )

-- Without an id left nothing changes.
pub Agree-refused :
    {channels : Channels} {ids ids' : IdsHeap} {e : ℕ}
    → Agree channels ids
    → ids_heap_alloc ids ≡ (ids', fail e)
    → Agree channels ids'
Agree-refused {channels} {ids} {ids'} {e} v r =
    let full : Allocated ids (ids', fail e) = rw r at (ids_heap_alloc_lem ids v.ids_valid) in
    rw full.1 v

-- The removed channel's id goes back, and every other keeps its own.
pub Agree-drop :
    (env : Env) (h : MultiplexHandler) (id : ℕ)
    → IsValid h
    → Owns h.channel_ids id
    → IsValid (drop_channel env h id)
unfolding drop_channel
Agree-drop env h id v own =
    let ids = h.channel_ids in
    let freed = (ids_heap_free env.shift ids id).0 in
    let (_, valid, size, others, _) =
      ids_heap_free_others env.shift ids id v.ids_valid own.0 own.1 in
    let (distinct, away) = IsDistinct-remove h.channels id v.distinct in
    rw (==_of_ne id 0 (omega (arith, own))) (record {
      ids_valid = valid;
      narrow = omega (arith, v.narrow, size);
      owned =
          All-zip (λ (c : Channel). Owns ids c.id) (λ (c : Channel). id ≢ c.id)
            (λ (c : Channel). Owns freed c.id) (channels_remove h.channels id)
            (λ c own ne. (own.0, omega (arith, own, size), others c.id own.0 ne ∙ own.2))
            (All-remove (λ (c : Channel). Owns ids c.id) h.channels id v.owned) away;
      distinct = distinct;
    })

-- A channel of the table owns its id.
pub Owns-get :
    {channels : Channels} {ids : IdsHeap} (id : ℕ) {ch : Channel}
    → Agree channels ids
    → channels_get channels id ≡ some ch
    → Owns ids ch.id
Owns-get {channels} {ids} id v e = P_of_get (λ (c : Channel). Owns ids c.id) channels id v.owned e

-- Besides the table and the ids, a removal changes nothing.
module _ (env : Env) (h : MultiplexHandler) (id : ℕ) where
  pub channels-drop : (drop_channel env h id).channels ≡ channels_remove h.channels id
  unfolding drop_channel
  channels-drop =
      if_both (λ (g : MultiplexHandler). g.channels ≡ channels_remove h.channels id) (id == 0) refl
        refl

  pub events-drop : (drop_channel env h id).events ≡ h.events
  unfolding drop_channel
  events-drop = if_both (λ (g : MultiplexHandler). g.events ≡ h.events) (id == 0) refl refl

  pub outbox-drop : (drop_channel env h id).outbox ≡ h.outbox
  unfolding drop_channel
  outbox-drop = if_both (λ (g : MultiplexHandler). g.outbox ≡ h.outbox) (id == 0) refl refl

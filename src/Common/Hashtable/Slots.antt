-- ===== src/Common/Hashtable/Slots.antt =====
-- The search along a bucket of common/linkedhashtable.c, and a write where it ends.
use my_test_module.Prelude.{
  ℕ, zero, suc, ◌≤◌, ◌≡◌, ◌≢◌, refl, ap, ◌∙◌, true, false, none, some, List, [], ◌∷◌, ◌++◌, All,
  arith, length, ==_of_ne,
}
use my_test_module.Common.Ring.{update, Back, first, last, IsOff, IsDistinct}
use my_test_module.Common.Ring.Chain.{
  update_same, update_ne, All-last, Front-of_Chain, Chain_of_Front, Back-update, Front-update-last,
}
use my_test_module.Common.Hashtable.{
  Hashtable, Slot, bucket, next_of, read_slot, write_slot, is_hit, find_slot,
}

-- the slot behind some entries of a chain
abbrev pub slot_at : Slot → List ℕ → Slot
slot_at s [] = s
slot_at s (v ∷ vs) = slot_at (next_of v) vs

slot_at-last : (v : ℕ) (vs : List ℕ) → slot_at (next_of v) vs ≡ next_of (last v vs)
slot_at-last v [] = refl
slot_at-last v (w ∷ ws) = slot_at-last w ws

pub read_slot_at :
    (t : Hashtable) (s : Slot) (vs us : List ℕ)
    → read_slot t s ≡ first (vs ++ us) 0
    → Back t.next (vs ++ us) 0
    → read_slot t (slot_at s vs) ≡ first us 0
read_slot_at t s [] us e c = e
read_slot_at t s (v ∷ vs) us e c =
    let (_, (m, r)) = Front-of_Chain t.next v [] (vs ++ us) 0 c in
    read_slot_at t (next_of v) vs us m r

module _ (t : Hashtable) (code k l : ℕ) where
  pub find_slot-absent :
      (n : ℕ) (s : Slot) (us : List ℕ)
      → read_slot t s ≡ first us 0
      → Back t.next us 0
      → All (λ (x : ℕ). x ≢ 0) us
      → All (λ (x : ℕ). is_hit t code k l x ≡ false) us
      → find_slot n t code k l s ≡ none
  unfolding find_slot
  find_slot-absent zero s us e c real miss = refl
  find_slot-absent (suc n) s [] e c real miss = rw e refl
  find_slot-absent (suc n) s (u ∷ us) e c real miss =
      let (_, (m, r)) = Front-of_Chain t.next u [] us 0 c in
      rw (e, ==_of_ne u 0 real.0, miss.0) (find_slot-absent n (next_of u) us m r real.1 miss.1)

  pub find_slot-hit :
      (n : ℕ) (s : Slot) (vs ws : List ℕ) (x : ℕ)
      → length (vs ++ (x ∷ ws)) ≤ n
      → read_slot t s ≡ first (vs ++ (x ∷ ws)) 0
      → Back t.next (vs ++ (x ∷ ws)) 0
      → All (λ (y : ℕ). y ≢ 0) (vs ++ (x ∷ ws))
      → All (λ (y : ℕ). is_hit t code k l y ≡ false) vs
      → is_hit t code k l x ≡ true
      → find_slot n t code k l s ≡ some (slot_at s vs)
  unfolding find_slot
  find_slot-hit zero s [] ws x fuel e c real miss hit = absurd (omega arith)
  find_slot-hit zero s (v ∷ vs) ws x fuel e c real miss hit = absurd (omega arith)
  find_slot-hit (suc n) s [] ws x fuel e c real miss hit = rw (e, ==_of_ne x 0 real.0, hit) refl
  find_slot-hit (suc n) s (v ∷ vs) ws x fuel e c real miss hit =
      let (_, (m, r)) = Front-of_Chain t.next v [] (vs ++ (x ∷ ws)) 0 c in
      rw (e, ==_of_ne v 0 real.0, miss.0)
        (find_slot-hit n (next_of v) vs ws x (omega arith) m r real.1 miss.1 hit)

-- The bucket at the index `i` leads through these entries to NULL.
abbrev pub InBucket : (ℕ → ℕ) → (ℕ → ℕ) → ℕ → List ℕ → Type 0
InBucket buckets next i us = (buckets i ≡ first us 0) × Back next us 0

-- What a write behind the entries `vs` of a bucket makes of it, and of the others
pub write_slot_at :
    (t : Hashtable) (i : ℕ) (vs us new : List ℕ)
    → InBucket t.buckets t.next i (vs ++ us)
    → IsDistinct vs
    → Back t.next new 0
    → All (λ (v : ℕ). IsOff v new) vs
    → (buckets : ℕ → ℕ) × ((next : ℕ → ℕ) × ((write_slot t (slot_at (bucket i) vs) (first new 0)
            ≡ record t { buckets = buckets; next = next })
          × (InBucket buckets next i (vs ++ new)
              × ((j : ℕ) (others : List ℕ)
                  → i ≢ j
                  → All (λ (v : ℕ). IsOff v others) vs
                  → InBucket t.buckets t.next j others
                  → InBucket buckets next j others))))
write_slot_at t i [] us new (e, c) d back off = (
  update t.buckets i (first new 0),
  (
    t.next,
    (
      refl,
      (
        (update_same t.buckets i (first new 0), back),
        λ j others ne apart b. (update_ne t.buckets i j (first new 0) ne ∙ b.0, b.1),
      ),
    ),
  ),
)
write_slot_at t i (v ∷ vs) us new (e, c) d back off =
    let z = last v vs in
    let n = update t.next z (first new 0) in
    let (front, _) = Front-of_Chain t.next v vs us 0 c in
    (
      t.buckets,
      (
        n,
        (
          ap (λ s. write_slot t s (first new 0)) (slot_at-last v vs),
          (
            (
              e,
              Chain_of_Front n v vs new 0 (Front-update-last t.next (first new 0) v vs d front)
                  (update_same t.next z (first new 0))
                  (Back-update t.next z (first new 0) new 0
                    (All-last (λ (w : ℕ). IsOff w new) v vs off.0 off.1) back),
            ),
            λ j others ne apart b. (
              b.0,
              Back-update t.next z (first new 0) others 0
                  (All-last (λ (w : ℕ). IsOff w others) v vs apart.0 apart.1) b.1,
            ),
          ),
        ),
      ),
    )

-- ===== src/Common/Hashtable/Table.antt =====
-- A well-formed table of common/linkedhashtable.c, and what hashtable_get_entry finds in it.
use my_test_module.Prelude.{
  ℕ, ◌%◌, ◌^◌, ◌≤◌, ◌<◌, ◌≡◌, ◌≢◌, refl, sym, ap, ◌∙◌, Bool, true, false, Bool-cases, inl, inr,
  ◌&&◌, none, some, List, [], ◌∷◌, ◌++◌, All, All-map, arith, length, ◌==◌, ==_of_eq, ℤ,
}
use mathlib.Core.Path.{subst}
use mathlib.Core.Bool.{true≢false}
use mathlib.Core.List.{reverse}
use native.Mathlib.Nat.{mod-lt}
use my_test_module.Common.Ring.{IsRing}
use my_test_module.Common.Ring.Chain.{All-of_append, All-reverse}
use my_test_module.Common.LinkedList.Places.{length-reverse}
use my_test_module.Common.Hashtable.{
  Hashtable, Slot, bucket, read_slot, is_zero, is_hit, find_slot, hashtable_get_entry,
}
use my_test_module.Common.Hashtable.Places.{IsAbsent}
use my_test_module.Common.Hashtable.Buckets.{of, bucket_of, All-of, length-of, bucket_of-middle}
use my_test_module.Common.Hashtable.Slots.{
  InBucket, slot_at, read_slot_at, find_slot-absent, find_slot-hit,
}

-- the entry has the key
abbrev pub has_key : Hashtable → ℕ → ℕ → ℕ → Bool
has_key t k l x = is_zero (t.key_compare (t.key x) (t.keylen x) k l)

-- What the table asks of the hash and the comparison that it is given: the keys that compare equal
-- to one key are equal, a key is equal to itself, and equal keys have one hash.
pub record IsKeys (hash : ℕ → ℕ → ℕ) (compare : ℕ → ℕ → ℕ → ℕ → ℤ) : Type 0 where
  pub reflexive : (k l : ℕ) → is_zero (compare k l k l) ≡ true
  pub euclidean :
      (a m b n k l : ℕ)
      → is_zero (compare a m k l) ≡ true
      → is_zero (compare b n k l) ≡ true
      → is_zero (compare a m b n) ≡ true
  pub hashed : (a m b n : ℕ) → is_zero (compare a m b n) ≡ true → hash a m ≡ hash b n

-- Different entries have different keys.
abbrev pub IsApart : Hashtable → List ℕ → Type 0
IsApart t [] = Unit
IsApart t (x ∷ xs) = All (λ (y : ℕ). has_key t (t.key y) (t.keylen y) x ≡ false) xs × IsApart t xs

abbrev pub IsReal : Hashtable → ℕ → Type 0
IsReal t x =
    (x ≢ 0)
    × ((t.data_of x ≢ 0)
        × ((t.key x ≢ 0) × ((t.keylen x ≢ 0) × (t.hash_code x ≡ t.hash (t.key x) (t.keylen x)))))

abbrev pub index_of : Hashtable → ℕ → ℕ
index_of t x = t.hash_code x % t.capacity

-- The table holds these entries, in this order of insertion.
pub record IsTable (t : Hashtable) (xs : List ℕ) : Type 0 where
  pub counted : t.count ≡ length xs
  pub bounded : length xs < 2 ^ 64
  pub sized : 0 < t.capacity
  pub ring : IsRing t.lst_next t.lst_prev t.head xs
  pub real : All (IsReal t) xs
  pub apart : IsApart t xs
  pub keys : IsKeys t.hash t.key_compare
  pub chains : (i : ℕ) → i < t.capacity → InBucket t.buckets t.next i (bucket_of (index_of t) i xs)

and_false : (b c : Bool) → c ≡ false → (b && c) ≡ false
and_false true c e = e
and_false false c e = refl

-- One entry alone has the key.
pub IsAbsent-behind :
    (t : Hashtable) (k l : ℕ) (ys zs : List ℕ) (x : ℕ)
    → IsKeys t.hash t.key_compare
    → IsApart t (ys ++ (x ∷ zs))
    → has_key t k l x ≡ true
    → IsAbsent (has_key t k l) zs
IsAbsent-behind t k l [] zs x ks a hit =
    All-map (λ (y : ℕ). has_key t (t.key y) (t.keylen y) x ≡ false)
      (λ (y : ℕ). has_key t k l y ≡ false) zs
      (λ y ne. elim (Bool-cases (has_key t k l y)) [
        | inl e ↦ absurd (
            true≢false
              (sym (ks.euclidean (t.key x) (t.keylen x) (t.key y) (t.keylen y) k l hit e) ∙ ne))
        | inr e ↦ e
      ])
      a.0
IsAbsent-behind t k l (y ∷ ys) zs x ks a hit = IsAbsent-behind t k l ys zs x ks a.1 hit

module _ (t : Hashtable) (xs : List ℕ) (v : IsTable t xs) (k l : ℕ) where
  abbrev code : ℕ
  code = t.hash k l

  in_range : code % t.capacity < t.capacity
  in_range = mod-lt code v.sized

  misses :
      (us : List ℕ) → IsAbsent (has_key t k l) us → All (λ (x : ℕ). is_hit t code k l x ≡ false) us
  misses us a =
      All-map (λ (x : ℕ). has_key t k l x ≡ false) (λ (x : ℕ). is_hit t code k l x ≡ false) us
        (λ x e. and_false (t.hash_code x == code) (has_key t k l x) e) a

  reals : (i : ℕ) → All (λ (x : ℕ). x ≢ 0) (bucket_of (index_of t) i xs)
  reals i =
      All-reverse (λ (x : ℕ). x ≢ 0) (of (index_of t) i xs)
        (All-of (index_of t) (λ (x : ℕ). x ≢ 0) i xs
          (All-map (IsReal t) (λ (x : ℕ). x ≢ 0) xs (λ x r. r.0) v.real))

  -- the bucket is no longer than the table
  fuel : (i : ℕ) → length (bucket_of (index_of t) i xs) ≤ t.count
  fuel i =
      let le = length-of (index_of t) i xs in
      let n = length-reverse (of (index_of t) i xs) in let c = v.counted in omega arith

  pub get_entry-absent : IsAbsent (has_key t k l) xs → hashtable_get_entry t k l ≡ none
  unfolding hashtable_get_entry
  get_entry-absent a =
      let i = code % t.capacity in
      let (e, c) = v.chains i in_range in
      find_slot-absent t code k l t.count (bucket i) (bucket_of (index_of t) i xs) e c (reals i) (
        misses (bucket_of (index_of t) i xs) (
          All-reverse (λ (x : ℕ). has_key t k l x ≡ false) (of (index_of t) i xs)
            (All-of (index_of t) (λ (x : ℕ). has_key t k l x ≡ false) i xs a)))

  -- where the search ends: behind the entries of the bucket that came later
  abbrev pub slot_of : List ℕ → ℕ → Slot
  slot_of zs x = slot_at (bucket (index_of t x)) (reverse (of (index_of t) (index_of t x) zs))

  pub get_entry-found :
      (ys zs : List ℕ) (x : ℕ)
      → xs ≡ ys ++ (x ∷ zs)
      → has_key t k l x ≡ true
      → (hashtable_get_entry t k l ≡ some (slot_of zs x)) × (read_slot t (slot_of zs x) ≡ x)
  unfolding hashtable_get_entry
  get_entry-found ys zs x here hit =
      let real : All (IsReal t) (ys ++ (x ∷ zs)) = subst (All (IsReal t)) here v.real in
      let known : t.hash_code x ≡ code =
        (All-of_append (IsReal t) ys (x ∷ zs) real).1.0.1.1.1.1
        ∙ v.keys.hashed (t.key x) (t.keylen x) k l hit in
      let i = index_of t x in
      let at : code % t.capacity ≡ i = ap (λ c. c % t.capacity) (sym known) in
      let vs = reverse (of (index_of t) i zs) in
      let ws = reverse (of (index_of t) i ys) in
      let split : bucket_of (index_of t) i xs ≡ vs ++ (x ∷ ws) =
        ap (bucket_of (index_of t) i) here ∙ bucket_of-middle (index_of t) ys zs x in
      let (e, c) =
        subst (λ us. InBucket t.buckets t.next i us) split
          (v.chains i (subst (λ j. j < t.capacity) at in_range)) in
      let miss = misses vs (
        All-reverse (λ (y : ℕ). has_key t k l y ≡ false) (of (index_of t) i zs)
          (All-of (index_of t) (λ (y : ℕ). has_key t k l y ≡ false) i zs
            (IsAbsent-behind t k l ys zs x v.keys (subst (IsApart t) here v.apart) hit))) in
      (
        ap (λ j. find_slot t.count t code k l (bucket j)) at
            ∙ find_slot-hit t code k l t.count (bucket i) vs ws x
                (subst (λ us. length us ≤ t.count) split (fuel i)) e c
                (subst (λ us. All (λ (y : ℕ). y ≢ 0) us) split (reals i)) miss
                (rw (==_of_eq (t.hash_code x) code known) hit),
        read_slot_at t (bucket i) vs (x ∷ ws) e c,
      )

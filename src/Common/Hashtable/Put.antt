-- ===== src/Common/Hashtable/Put.antt =====
-- A new entry goes to the front of its bucket and to the end of the ring of
-- common/linkedhashtable.c.
use my_test_module.Prelude.{
  ℕ, ◌+◌, ◌%◌, ◌^◌, ◌<◌, ◌≡◌, ◌≢◌, sym, ap, ◌∙◌, false, List, [], ◌∷◌, ◌++◌, All, All-map, arith,
  length, length-append,
}
use mathlib.Core.Path.{subst}
use mathlib.Core.List.{reverse, append-nil}
use native.Mathlib.Decide.{ℕ_discrete}
use my_test_module.Session.Channels.Laws.{All-zip}
use my_test_module.Common.Ring.{update, last, IsOff, IsRing}
use my_test_module.Common.Ring.Chain.{
  update_same, update_ne, All-append, All-reverse, Front-of_Chain, Chain_of_Front, Back-update,
  first-reverse,
}
use my_test_module.Common.Ring.Surgery.{IsRing-link}
use my_test_module.Common.Hashtable.{Hashtable, hashtable_add}
use my_test_module.Common.Hashtable.Places.{IsAbsent}
use my_test_module.Common.Hashtable.Buckets.{
  of, bucket_of, All-of, of-same, bucket_of-middle, bucket_of-other,
}
use my_test_module.Common.Hashtable.Slots.{InBucket}
use my_test_module.Common.Hashtable.Table.{has_key, IsApart, IsReal, IsTable, index_of}

-- An entry that can be put in: new to the table, with a key and with data
abbrev pub IsFresh : Hashtable → List ℕ → ℕ → Type 0
IsFresh t xs n =
    IsOff n (t.head ∷ xs) × ((n ≢ 0) × ((t.data_of n ≢ 0) × ((t.key n ≢ 0) × (t.keylen n ≢ 0))))

-- Only the new entry's hash is written.
pub of-update :
    (t : Hashtable) (n code i : ℕ) (xs : List ℕ)
    → IsOff n xs
    → of (λ x. update t.hash_code n code x % t.capacity) i xs ≡ of (index_of t) i xs
of-update t n code i xs off =
    of-same (index_of t) (λ x. update t.hash_code n code x % t.capacity) i xs
      (All-map (λ (x : ℕ). n ≢ x)
        (λ (x : ℕ). update t.hash_code n code x % t.capacity ≡ index_of t x) xs
        (λ x ne. ap (λ c. c % t.capacity) (update_ne t.hash_code n x code ne)) off)

pub IsReal-update :
    (t : Hashtable) (n code : ℕ) (xs : List ℕ)
    → IsOff n xs
    → All (IsReal t) xs
    → All (IsReal (record t { hash_code = update t.hash_code n code })) xs
IsReal-update t n code xs off real =
    All-zip (λ (x : ℕ). n ≢ x) (IsReal t)
      (IsReal (record t { hash_code = update t.hash_code n code })) xs
      (λ x ne r.
        (r.0, (r.1.0, (r.1.1.0, (r.1.1.1.0, update_ne t.hash_code n x code ne ∙ r.1.1.1.1)))))
      off real

pub InBucket-fresh :
    (buckets next : ℕ → ℕ) (n w i : ℕ) (us : List ℕ)
    → IsOff n us
    → InBucket buckets next i us
    → InBucket buckets (update next n w) i us
InBucket-fresh buckets next n w i us off (e, c) = (e, Back-update next n w us 0 off c)

pub IsApart-snoc :
    (t : Hashtable) (xs : List ℕ) (n : ℕ)
    → IsAbsent (has_key t (t.key n) (t.keylen n)) xs
    → IsApart t xs
    → IsApart t (xs ++ (n ∷ []))
IsApart-snoc t [] n absent a = (tt, tt)
IsApart-snoc t (x ∷ xs) n absent a = (
  All-append (λ (y : ℕ). has_key t (t.key y) (t.keylen y) x ≡ false) xs (n ∷ []) a.0 (absent.0, tt),
  IsApart-snoc t xs n absent.1 a.1,
)

module _ (t : Hashtable) (xs : List ℕ) (n : ℕ) (v : IsTable t xs) (fresh : IsFresh t xs n) where
  abbrev code : ℕ
  code = t.hash (t.key n) (t.keylen n)

  abbrev place : ℕ
  place = code % t.capacity

  -- the table with the new entry, its fields written out
  abbrev pub added : Hashtable
  added = record t {
    hash_code = update t.hash_code n code;
    next = update t.next n (t.buckets place);
    lst_next = update (update t.lst_next n t.head) (last t.head xs) n;
    lst_prev = update (update t.lst_prev n (last t.head xs)) t.head n;
    buckets = update t.buckets place n;
    count = (t.count + 1) % 2 ^ 64;
  }

  hashtable_add-added : hashtable_add t n ≡ added
  unfolding hashtable_add
  hashtable_add-added =
      let h = t.head in
      let p = last h xs in
      let pe : t.lst_prev h ≡ p =
        (Front-of_Chain t.lst_prev h [] (reverse xs) h v.ring.1.0).1.0 ∙ first-reverse h xs in
      let back : update t.lst_prev n (t.lst_prev h) h ≡ p =
        update_ne t.lst_prev n h (t.lst_prev h) fresh.0.0 ∙ pe in
      ap (links (t.lst_prev h)) back ∙ ap (λ k. links k p) pe
    where
      links : ℕ → ℕ → Hashtable
      links k m = record t {
        hash_code = update t.hash_code n code;
        next = update t.next n (t.buckets place);
        lst_next = update (update t.lst_next n t.head) m n;
        lst_prev = update (update t.lst_prev n k) t.head n;
        buckets = update t.buckets place n;
        count = (t.count + 1) % 2 ^ 64;
      }

  chain_added :
      (i : ℕ)
      → i < t.capacity
      → InBucket added.buckets added.next i (bucket_of (index_of added) i (xs ++ (n ∷ [])))
  chain_added i lt =
      let bucket' = bucket_of (index_of added) in
      let same : of (index_of added) i xs ≡ of (index_of t) i xs =
        of-update t n code i xs fresh.0.1 in
      let at : index_of added n ≡ place =
        ap (λ c. c % t.capacity) (update_same t.hash_code n code) in
      let old =
        InBucket-fresh t.buckets t.next n (t.buckets place) i (bucket_of (index_of t) i xs)
          (All-reverse (λ (x : ℕ). n ≢ x) (of (index_of t) i xs)
            (All-of (index_of t) (λ (x : ℕ). n ≢ x) i xs fresh.0.1))
          (v.chains i lt) in
      elim (ℕ_discrete (index_of added n) i) [
        | yes here ↦
            let front : bucket' i (xs ++ (n ∷ [])) ≡ n ∷ bucket_of (index_of t) i xs =
              subst (λ j. bucket' j (xs ++ (n ∷ [])) ≡ n ∷ reverse (of (index_of added) j xs)) here
                (bucket_of-middle (index_of added) xs [] n)
              ∙ ap (λ us. n ∷ reverse us) same in
            let i_place : place ≡ i = sym at ∙ here in
            subst (InBucket added.buckets added.next i) (sym front) (
              subst (λ j. update t.buckets place n j ≡ n) i_place (update_same t.buckets place n),
              Chain_of_Front added.next n [] (bucket_of (index_of t) i xs) 0 tt
                  (update_same t.next n (t.buckets place)
                    ∙ (ap t.buckets i_place ∙ (v.chains i lt).0))
                  old.1,
            )
        | no other ↦
            let whole : bucket' i (xs ++ (n ∷ [])) ≡ bucket_of (index_of t) i xs =
              bucket_of-other (index_of added) i xs [] n other
              ∙ (ap (bucket' i) (append-nil xs) ∙ ap reverse same) in
            subst (InBucket added.buckets added.next i) (sym whole)
              (update_ne t.buckets place i n (λ e. other (at ∙ e)) ∙ old.0, old.1)
      ]

  pub hashtable_add-IsTable :
      IsAbsent (has_key t (t.key n) (t.keylen n)) xs
      → length xs + 1 < 2 ^ 64
      → (hashtable_add t n ≡ added) × IsTable added (xs ++ (n ∷ []))
  hashtable_add-IsTable absent room =
      let more : length (xs ++ (n ∷ [])) ≡ length xs + 1 = length-append xs (n ∷ []) in
      let counted = v.counted in
      (
        hashtable_add-added,
        record {
          counted = omega arith;
          bounded = omega arith;
          sized = v.sized;
          ring =
              IsRing-link t.lst_next t.lst_prev t.head xs [] n
                (subst (λ us. IsOff n (t.head ∷ us)) (sym (append-nil xs)) fresh.0)
                (subst (IsRing t.lst_next t.lst_prev t.head) (sym (append-nil xs)) v.ring);
          real =
              All-append (IsReal added) xs (n ∷ []) (IsReal-update t n code xs fresh.0.1 v.real) (
                (
                  fresh.1.0,
                  (fresh.1.1.0, (fresh.1.1.1.0, (fresh.1.1.1.1, update_same t.hash_code n code))),
                ),
                tt,
              );
          apart = IsApart-snoc t xs n absent v.apart;
          keys = v.keys;
          chains = chain_added;
        },
      )

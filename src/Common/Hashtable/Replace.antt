-- ===== src/Common/Hashtable/Replace.antt =====
-- An entry takes the place of the one with its key in the bucket and in the ring of
-- common/linkedhashtable.c.
use my_test_module.Prelude.{
  ℕ, ◌%◌, ◌<◌, ◌≡◌, ◌≢◌, sym, ap, ◌∙◌, true, false, Bool-cases, inl, inr, List, [], ◌∷◌, ◌++◌,
  All-map, arith,
}
use mathlib.Core.Path.{subst}
use mathlib.Core.Bool.{true≢false}
use mathlib.Core.List.{reverse}
use native.Mathlib.Decide.{ℕ_discrete}
use my_test_module.Session.Channels.Laws.{All-zip}
use my_test_module.Common.Ring.{update, Chain, first, last, IsOff}
use my_test_module.Common.Ring.Chain.{
  update_same, update_ne, All-append, All-of_append, All-last, All-reverse, Chain_of_Front,
  Back-update, IsOff-flip,
}
use my_test_module.Common.Ring.Surgery.{IsRing-swap, beside, All-beside}
use my_test_module.Common.RcMem.{deref}
use my_test_module.Common.Hashtable.{
  Hashtable, bucket, read_slot, write_slot, replace_entry, is_zero,
}
use my_test_module.Common.Hashtable.Buckets.{
  of, bucket_of, All-of, bucket_of-middle, bucket_of-other,
}
use my_test_module.Common.Hashtable.Slots.{InBucket, slot_at, write_slot_at}
use my_test_module.Common.Hashtable.Table.{has_key, IsKeys, IsApart, IsReal, IsTable, index_of}
use my_test_module.Common.Hashtable.Remove.{
  length-middle, later, earlier, bucket_split, bucket-IsDistinct, Back-behind, IsDistinct-of_append,
  IsOff-buckets, idx-bucket_of,
}
use my_test_module.Common.Hashtable.Put.{IsFresh, of-update, IsReal-update, InBucket-fresh}

-- Of two entries with one key either is apart from the others.
module _ (t : Hashtable) (ks : IsKeys t.hash t.key_compare) (e n : ℕ)
    (same : has_key t (t.key n) (t.keylen n) e ≡ true) where
  apart_behind :
      (y : ℕ)
      → has_key t (t.key y) (t.keylen y) e ≡ false
      → has_key t (t.key y) (t.keylen y) n ≡ false
  apart_behind y ne = elim (Bool-cases (has_key t (t.key y) (t.keylen y) n)) [
    | inr miss ↦ miss
    | inl hit ↦
        let back : is_zero (t.key_compare (t.key y) (t.keylen y) (t.key n) (t.keylen n)) ≡ true =
          ks.euclidean (t.key y) (t.keylen y) (t.key n) (t.keylen n) (t.key y) (t.keylen y)
            (ks.reflexive (t.key y) (t.keylen y)) hit in
        absurd (
          true≢false (
            sym (
              ks.euclidean (t.key e) (t.keylen e) (t.key y) (t.keylen y) (t.key n) (t.keylen n) same
                back)
            ∙ ne))
  ]

  apart_before :
      (y : ℕ)
      → has_key t (t.key e) (t.keylen e) y ≡ false
      → has_key t (t.key n) (t.keylen n) y ≡ false
  apart_before y ne = elim (Bool-cases (has_key t (t.key n) (t.keylen n) y)) [
    | inr miss ↦ miss
    | inl hit ↦ absurd (
        true≢false (
          sym (
            ks.euclidean (t.key y) (t.keylen y) (t.key e) (t.keylen e) (t.key n) (t.keylen n) hit
              same)
          ∙ ne))
  ]

  pub IsApart-swap : (ys zs : List ℕ) → IsApart t (ys ++ (e ∷ zs)) → IsApart t (ys ++ (n ∷ zs))
  IsApart-swap [] zs a = (
    All-map (λ (y : ℕ). has_key t (t.key y) (t.keylen y) e ≡ false)
        (λ (y : ℕ). has_key t (t.key y) (t.keylen y) n ≡ false) zs apart_behind a.0,
    a.1,
  )
  IsApart-swap (y ∷ ys) zs a =
      let (l, r) =
        All-of_append (λ (x : ℕ). has_key t (t.key x) (t.keylen x) y ≡ false) ys (e ∷ zs) a.0 in
      (
        All-append (λ (x : ℕ). has_key t (t.key x) (t.keylen x) y ≡ false) ys (n ∷ zs) l
            (apart_before y r.0, r.1),
        IsApart-swap ys zs a.1,
      )

module _ (t : Hashtable) (ys zs : List ℕ) (e n : ℕ) (v : IsTable t (ys ++ (e ∷ zs)))
    (fresh : IsFresh t (ys ++ (e ∷ zs)) n) (same : has_key t (t.key n) (t.keylen n) e ≡ true) where
  abbrev before : List ℕ
  before = later t ys zs e v

  abbrev behind : List ℕ
  behind = earlier t ys zs e v

  abbrev place : ℕ
  place = index_of t e

  abbrev links : ℕ → ℕ → ℕ → ℕ → Hashtable
  links p q m k = record t {
    next = update t.next n (t.next e);
    hash_code = update t.hash_code n (t.hash_code e);
    lst_next = update (update t.lst_next n q) m n;
    lst_prev = update (update t.lst_prev n p) k n;
    memory = deref t.memory (t.data_of e);
  }

  -- the table with the new entry, its fields written out, before the write to the slot
  abbrev pub linked : Hashtable
  linked = links (last t.head ys) (first zs t.head) (last t.head ys) (first zs t.head)

  IsOff-links : IsOff n (t.head ∷ (ys ++ zs))
  IsOff-links = (fresh.0.0, (All-beside (λ (x : ℕ). n ≢ x) ys zs e fresh.0.1).1)

  replace_entry-linked :
      read_slot t (slot_at (bucket place) before) ≡ e
      → replace_entry t (slot_at (bucket place) before) n
        ≡ write_slot linked (slot_at (bucket place) before) n
  unfolding replace_entry
  replace_entry-linked reads =
      let h = t.head in
      let p = last h ys in
      let q = first zs h in
      let s = slot_at (bucket place) before in
      let (ne, pe) = beside t.lst_next t.lst_prev h ys zs e v.ring in
      let (off_ys, _) = All-of_append (λ (x : ℕ). n ≢ x) ys zs IsOff-links.1 in
      let n_p : n ≢ p = All-last (λ (x : ℕ). n ≢ x) h ys fresh.0.0 off_ys in
      let m1 : update t.lst_prev n (t.lst_prev e) n ≡ p =
        update_same t.lst_prev n (t.lst_prev e) ∙ pe in
      let k1 : update (update t.lst_next n (t.lst_next e)) p n n ≡ q =
        update_ne (update t.lst_next n (t.lst_next e)) p n n (λ k. n_p (sym k))
        ∙ (update_same t.lst_next n (t.lst_next e) ∙ ne) in
      ap (λ x. write_slot (link x) s n) reads
      ∙ (ap
            (λ m.
              write_slot
                (links (t.lst_prev e) (t.lst_next e) m
                  (update (update t.lst_next n (t.lst_next e)) m n n))
                s n)
            m1
          ∙ (ap (λ k. write_slot (links (t.lst_prev e) (t.lst_next e) p k) s n) k1
              ∙ (ap (λ k. write_slot (links k (t.lst_next e) p q) s n) pe
                  ∙ ap (λ k. write_slot (links p k p q) s n) ne)))
    where
      link : ℕ → Hashtable
      link old =
          let prev1 = update t.lst_prev n (t.lst_prev old) in
          let next1 = update t.lst_next n (t.lst_next old) in
          let next2 = update next1 (prev1 n) n in
          record t {
            next = update t.next n (t.next old);
            hash_code = update t.hash_code n (t.hash_code old);
            lst_next = next2;
            lst_prev = update prev1 (next2 n) n;
            memory = deref t.memory (t.data_of old);
          }

  -- the bucket of the key with the new entry, and the others
  abbrev bucket' : ℕ → List ℕ
  bucket' i = bucket_of (index_of linked) i (ys ++ (n ∷ zs))

  at : index_of linked n ≡ place
  at = ap (λ c. c % t.capacity) (update_same t.hash_code n (t.hash_code e))

  parts_same :
      (i : ℕ)
      → (of (index_of linked) i ys ≡ of (index_of t) i ys)
        × (of (index_of linked) i zs ≡ of (index_of t) i zs)
  parts_same i =
      let (l, r) = All-of_append (λ (x : ℕ). n ≢ x) ys zs IsOff-links.1 in
      (of-update t n (t.hash_code e) i ys l, of-update t n (t.hash_code e) i zs r)

  bucket'-here : bucket' place ≡ before ++ (n ∷ behind)
  bucket'-here =
      let (l, r) = parts_same place in
      subst
        (λ j.
          bucket_of (index_of linked) j (ys ++ (n ∷ zs))
          ≡ reverse (of (index_of linked) j zs) ++ (n ∷ reverse (of (index_of linked) j ys)))
        at (bucket_of-middle (index_of linked) ys zs n)
      ∙ (ap (λ a. reverse a ++ (n ∷ reverse (of (index_of linked) place ys))) r
          ∙ ap (λ a. before ++ (n ∷ reverse a)) l)

  bucket'-other : (i : ℕ) → place ≢ i → bucket' i ≡ bucket_of (index_of t) i (ys ++ (e ∷ zs))
  bucket'-other i ne =
      bucket_of-other (index_of linked) i ys zs n (λ k. ne (sym at ∙ k))
      ∙ (ap reverse (of-update t n (t.hash_code e) i (ys ++ zs) IsOff-links.1)
          ∙ sym (bucket_of-other (index_of t) i ys zs e ne))

  IsOff-bucket : (i : ℕ) → IsOff n (bucket_of (index_of t) i (ys ++ (e ∷ zs)))
  IsOff-bucket i =
      All-reverse (λ (x : ℕ). n ≢ x) (of (index_of t) i (ys ++ (e ∷ zs)))
        (All-of (index_of t) (λ (x : ℕ). n ≢ x) i (ys ++ (e ∷ zs)) fresh.0.1)

  old_bucket :
      (i : ℕ)
      → i < t.capacity
      → InBucket linked.buckets linked.next i (bucket_of (index_of t) i (ys ++ (e ∷ zs)))
  old_bucket i lt =
      InBucket-fresh t.buckets t.next n (t.next e) i (bucket_of (index_of t) i (ys ++ (e ∷ zs)))
        (IsOff-bucket i) (v.chains i lt)

  pub replace_entry-IsTable :
      place < t.capacity
      → read_slot t (slot_at (bucket place) before) ≡ e
      → (buckets : ℕ → ℕ) × ((next : ℕ → ℕ) × ((replace_entry t (slot_at (bucket place) before) n
              ≡ record linked { buckets = buckets; next = next })
            × IsTable (record linked { buckets = buckets; next = next }) (ys ++ (n ∷ zs))))
  replace_entry-IsTable lt reads =
      let split = bucket_of-middle (index_of t) ys zs e in
      let off_all : IsOff n (before ++ (e ∷ behind)) = subst (IsOff n) split (IsOff-bucket place) in
      let (off_before, off_behind) = All-of_append (λ (x : ℕ). n ≢ x) before (e ∷ behind) off_all in
      let (d_before, (cross, _)) =
        IsDistinct-of_append before (e ∷ behind) (bucket-IsDistinct t ys zs e v) in
      let (next_e, rest) = Back-behind t.next before behind e 0 (bucket_split t ys zs e v lt).1 in
      let chain : Chain linked.next n behind 0 =
        Chain_of_Front linked.next n [] behind 0 tt (update_same t.next n (t.next e) ∙ next_e)
          (Back-update t.next n (t.next e) behind 0 off_behind.1 rest) in
      let apart =
        All-zip (λ (x : ℕ). x ≢ n) (λ (x : ℕ). IsOff x (e ∷ behind))
          (λ (x : ℕ). IsOff x (n ∷ behind)) before (λ x ne o. (ne, o.1))
          (IsOff-flip n before off_before) cross in
      let (bs, (nx, (written, (here, others)))) =
        write_slot_at linked place before (e ∷ behind) (n ∷ behind)
          (subst (InBucket linked.buckets linked.next place) split (old_bucket place lt)) d_before
          chain apart in
      let old_more = length-middle ys zs e in
      let new_more = length-middle ys zs n in
      let counted = v.counted in
      let bounded = v.bounded in
      let reals =
        All-beside (IsReal linked) ys zs e
          (IsReal-update t n (t.hash_code e) (ys ++ (e ∷ zs)) fresh.0.1 v.real) in
      let (l, r) = All-of_append (IsReal linked) ys zs reals.1 in
      let e_real = (All-beside (IsReal t) ys zs e v.real).0 in
      let hashed : linked.hash_code n ≡ t.hash (t.key n) (t.keylen n) =
        update_same t.hash_code n (t.hash_code e)
        ∙ (e_real.1.1.1.1 ∙ v.keys.hashed (t.key e) (t.keylen e) (t.key n) (t.keylen n) same) in
      (
        bs,
        (
          nx,
          (
            replace_entry-linked reads ∙ written,
            record {
              counted = omega arith;
              bounded = omega arith;
              sized = v.sized;
              ring = IsRing-swap t.lst_next t.lst_prev t.head ys zs e n IsOff-links v.ring;
              real =
                  All-append (IsReal linked) ys (n ∷ zs) l
                    ((fresh.1.0, (fresh.1.1.0, (fresh.1.1.1.0, (fresh.1.1.1.1, hashed)))), r);
              apart = IsApart-swap t v.keys e n same ys zs v.apart;
              keys = v.keys;
              chains = λ i lt'. elim (ℕ_discrete place i) [
                | yes here_i ↦
                    subst (λ j. InBucket bs nx j (bucket' j)) here_i
                      (subst (InBucket bs nx place) (sym bucket'-here) here)
                | no other ↦ subst (InBucket bs nx i) (sym (bucket'-other i other)) (
                    others i (bucket_of (index_of t) i (ys ++ (e ∷ zs))) other
                      (IsOff-buckets (index_of t) place i before
                        (bucket_of (index_of t) i (ys ++ (e ∷ zs))) other
                        (idx-bucket_of (index_of t) place zs)
                        (idx-bucket_of (index_of t) i (ys ++ (e ∷ zs))))
                      (old_bucket i lt'))
              ];
            },
          ),
        ),
      )

-- ===== src/Common/Hashtable/Remove.antt =====
-- An entry comes out of its bucket and of the ring of common/linkedhashtable.c.
use my_test_module.Prelude.{
  ℕ, suc, ◌+◌, ◌-◌, ◌%◌, ◌^◌, ◌<◌, ◌≡◌, ◌≢◌, refl, sym, ap, ◌∙◌, false, List, [], ◌∷◌, ◌++◌, All,
  All-map, arith, length,
}
use mathlib.Core.Path.{subst}
use mathlib.Core.List.{reverse}
use native.Mathlib.Decide.{ℕ_discrete}
use my_test_module.Common.Ring.{update, Back, first, last, IsOff, IsDistinct}
use my_test_module.Common.Ring.Chain.{
  update_ne, All-of_append, All-last, All-reverse, IsDistinct-reverse, Front-of_Chain,
}
use my_test_module.Common.Ring.Surgery.{IsRing-unlink, beside, All-beside, IsDistinct-beside}
use my_test_module.Common.LinkedList.{mod_suc}
use my_test_module.Common.Hashtable.{Hashtable, bucket, read_slot, write_slot, unlink_entry}
use my_test_module.Common.Hashtable.Buckets.{
  of, bucket_of, idx-of, IsDistinct-of, bucket_of-middle, bucket_of-without, bucket_of-other,
}
use my_test_module.Common.Hashtable.Slots.{InBucket, slot_at, write_slot_at}
use my_test_module.Common.Hashtable.Table.{has_key, IsApart, IsReal, IsTable, index_of}

pub IsDistinct-of_append :
    (xs ys : List ℕ)
    → IsDistinct (xs ++ ys)
    → IsDistinct xs × (All (λ (x : ℕ). IsOff x ys) xs × IsDistinct ys)
IsDistinct-of_append [] ys d = (tt, (tt, d))
IsDistinct-of_append (x ∷ xs) ys d =
    let (l, (m, r)) = IsDistinct-of_append xs ys d.1 in
    let (a, b) = All-of_append (λ (y : ℕ). x ≢ y) xs ys d.0 in ((a, l), ((b, m), r))

pub length-middle : (ys zs : List ℕ) (e : ℕ) → length (ys ++ (e ∷ zs)) ≡ suc (length (ys ++ zs))
length-middle [] zs e = refl
length-middle (y ∷ ys) zs e = ap suc (length-middle ys zs e)

-- Entries of two buckets are different.
pub IsOff-buckets :
    (idx : ℕ → ℕ) (i j : ℕ) (vs us : List ℕ)
    → i ≢ j
    → All (λ (x : ℕ). idx x ≡ i) vs
    → All (λ (x : ℕ). idx x ≡ j) us
    → All (λ (v : ℕ). IsOff v us) vs
IsOff-buckets idx i j [] us ne a b = tt
IsOff-buckets idx i j (v ∷ vs) us ne a b = (
  All-map (λ (x : ℕ). idx x ≡ j) (λ (x : ℕ). v ≢ x) us (λ x at e. ne (sym a.0 ∙ (ap idx e ∙ at))) b,
  IsOff-buckets idx i j vs us ne a.1 b,
)

pub idx-bucket_of :
    (idx : ℕ → ℕ) (i : ℕ) (xs : List ℕ) → All (λ (x : ℕ). idx x ≡ i) (bucket_of idx i xs)
idx-bucket_of idx i xs = All-reverse (λ (x : ℕ). idx x ≡ i) (of idx i xs) (idx-of idx i xs)

pub IsApart-beside :
    (t : Hashtable) (ys zs : List ℕ) (e : ℕ) → IsApart t (ys ++ (e ∷ zs)) → IsApart t (ys ++ zs)
IsApart-beside t [] zs e a = a.1
IsApart-beside t (y ∷ ys) zs e a = (
  (All-beside (λ (x : ℕ). has_key t (t.key x) (t.keylen x) y ≡ false) ys zs e a.0).1,
  IsApart-beside t ys zs e a.1,
)

-- what follows an entry in a bucket
pub Back-behind :
    (f : ℕ → ℕ) (vs us : List ℕ) (e b : ℕ)
    → Back f (vs ++ (e ∷ us)) b
    → (f e ≡ first us b) × Back f us b
Back-behind f [] us e b c = (Front-of_Chain f e [] us b c).1
Back-behind f (w ∷ ws) us e b c =
    (Front-of_Chain f e [] us b (Front-of_Chain f w ws (e ∷ us) b c).1.1).1

module _ (t : Hashtable) (ys zs : List ℕ) (e : ℕ) (v : IsTable t (ys ++ (e ∷ zs))) where
  -- the bucket of the entry, around it
  abbrev pub later : List ℕ
  later = reverse (of (index_of t) (index_of t e) zs)

  abbrev pub earlier : List ℕ
  earlier = reverse (of (index_of t) (index_of t e) ys)

  pub bucket_split :
      index_of t e < t.capacity → InBucket t.buckets t.next (index_of t e) (later ++ (e ∷ earlier))
  bucket_split lt =
      subst (InBucket t.buckets t.next (index_of t e)) (bucket_of-middle (index_of t) ys zs e)
        (v.chains (index_of t e) lt)

  pub bucket-IsDistinct : IsDistinct (later ++ (e ∷ earlier))
  bucket-IsDistinct = subst IsDistinct (bucket_of-middle (index_of t) ys zs e) (
      IsDistinct-reverse (of (index_of t) (index_of t e) (ys ++ (e ∷ zs)))
        (IsDistinct-of (index_of t) (index_of t e) (ys ++ (e ∷ zs)) v.ring.1.1.1))

  -- the table without the entry, its fields written out
  abbrev pub unlinked : (ℕ → ℕ) → (ℕ → ℕ) → Hashtable
  unlinked buckets next = record t {
    buckets = buckets;
    next = next;
    lst_next = update t.lst_next (last t.head ys) (first zs t.head);
    lst_prev = update t.lst_prev (first zs t.head) (last t.head ys);
    count = (t.count + (2 ^ 64 - 1)) % 2 ^ 64;
    mod_count = mod_suc t.mod_count;
  }

  abbrev links : Hashtable → ℕ → ℕ → ℕ → Hashtable
  links w p q n = record w {
    lst_next = update t.lst_next p q;
    lst_prev = update t.lst_prev n p;
    count = (t.count + (2 ^ 64 - 1)) % 2 ^ 64;
    mod_count = mod_suc t.mod_count;
  }

  abbrev removal : ℕ → Hashtable
  removal x =
      links (write_slot t (slot_at (bucket (index_of t e)) later) (t.next x)) (t.lst_prev x)
        (t.lst_next x) (update t.lst_next (t.lst_prev x) (t.lst_next x) x)

  pub unlink_entry_lem :
      index_of t e < t.capacity
      → read_slot t (slot_at (bucket (index_of t e)) later) ≡ e
      → (buckets : ℕ → ℕ) × ((next : ℕ → ℕ) × ((unlink_entry t
                (slot_at (bucket (index_of t e)) later)
              ≡ unlinked buckets next)
            × IsTable (unlinked buckets next) (ys ++ zs)))
  unfolding unlink_entry
  unlink_entry_lem lt reads =
      let h = t.head in
      let p = last h ys in
      let q = first zs h in
      let slot = slot_at (bucket (index_of t e)) later in
      let (d_later, (cross, d_rest)) = IsDistinct-of_append later (e ∷ earlier) bucket-IsDistinct in
      let apart =
        All-map (λ (x : ℕ). IsOff x (e ∷ earlier)) (λ (x : ℕ). IsOff x earlier) later (λ x o. o.1)
          cross in
      let (next_e, back) = Back-behind t.next later earlier e 0 (bucket_split lt).1 in
      let (bs, (nx, (written, (here, others)))) =
        write_slot_at t (index_of t e) later (e ∷ earlier) earlier (bucket_split lt) d_later back
          apart in
      let (ne, pe) = beside t.lst_next t.lst_prev h ys zs e v.ring in
      let (off_h, _) = All-beside (λ (x : ℕ). h ≢ x) ys zs e v.ring.1.1.0 in
      let (off_ys, off_zs) =
        All-of_append (λ (x : ℕ). e ≢ x) ys zs (IsDistinct-beside ys zs e v.ring.1.1.1).0 in
      let e_p : e ≢ p = All-last (λ (x : ℕ). e ≢ x) h ys (λ k. off_h (sym k)) off_ys in
      let p_e : t.lst_prev e ≢ e = λ k. e_p (sym k ∙ pe) in
      let n1 : update t.lst_next (t.lst_prev e) (t.lst_next e) e ≡ q =
        update_ne t.lst_next (t.lst_prev e) e (t.lst_next e) p_e ∙ ne in
      let fewer : length (ys ++ (e ∷ zs)) ≡ suc (length (ys ++ zs)) = length-middle ys zs e in
      let counted = v.counted in
      let bounded = v.bounded in
      let w : write_slot t slot (t.next e) ≡ record t { buckets = bs; next = nx } =
        ap (write_slot t slot) next_e ∙ written in
      (
        bs,
        (
          nx,
          (
            ap removal reads
                ∙ (ap
                      (λ w'.
                        links w' (t.lst_prev e) (t.lst_next e)
                          (update t.lst_next (t.lst_prev e) (t.lst_next e) e))
                      w
                    ∙ (ap
                          (links (record t { buckets = bs; next = nx }) (t.lst_prev e)
                            (t.lst_next e))
                          n1
                        ∙ (ap (λ k. links (record t { buckets = bs; next = nx }) k (t.lst_next e) q)
                              pe
                            ∙ ap (λ k. links (record t { buckets = bs; next = nx }) p k q) ne))),
            record {
              counted = omega arith;
              bounded = omega arith;
              sized = v.sized;
              ring = IsRing-unlink t.lst_next t.lst_prev h ys zs e v.ring;
              real = (All-beside (IsReal t) ys zs e v.real).1;
              apart = IsApart-beside t ys zs e v.apart;
              keys = v.keys;
              chains = λ i lt'. elim (ℕ_discrete (index_of t e) i) [
                | yes same ↦
                    subst (λ j. InBucket bs nx j (bucket_of (index_of t) j (ys ++ zs))) same
                      (subst (InBucket bs nx (index_of t e))
                        (sym (bucket_of-without (index_of t) (index_of t e) ys zs)) here)
                | no other ↦
                    others i (bucket_of (index_of t) i (ys ++ zs)) other
                      (IsOff-buckets (index_of t) (index_of t e) i later
                        (bucket_of (index_of t) i (ys ++ zs)) other
                        (idx-bucket_of (index_of t) (index_of t e) zs)
                        (idx-bucket_of (index_of t) i (ys ++ zs)))
                      (subst (InBucket t.buckets t.next i)
                        (bucket_of-other (index_of t) i ys zs e other) (v.chains i lt'))
              ];
            },
          ),
        ),
      )

-- ===== src/Common/Hashtable/Default.antt =====
-- The hash and the comparison that common/linkedhashtable.c takes when it is given none.
use my_test_module.Prelude.{
  ℕ, zero, suc, ◌+◌, ◌*◌, ◌%◌, ◌^◌, ◌≡◌, refl, sym, ap, ◌∙◌, Bool, true, false, not, ltb, ==_of_eq,
  ==_of_ne, if◌then◌else◌, pos, negsuc,
}
use mathlib.Core.Path.{subst}
use mathlib.Core.Bool.{true≢false}
use native.Mathlib.Decide.{ℕ_discrete}
use my_test_module.Common.Hashtable.{
  is_zero, hash_bytes, char32, default_hash_code, compare_bytes, default_key_compare,
}
use my_test_module.Common.Hashtable.Table.{IsKeys}

-- neither way of a comparison that differs is zero
is_zero-less : (b : Bool) → is_zero (if b then negsuc 0 else pos 1) ≡ false
is_zero-less true = refl
is_zero-less false = refl

module _ (byte_at : ℕ → ℕ) where
  -- the bytes of two keys are the same
  abbrev Same : ℕ → ℕ → ℕ → Type 0
  Same p q zero = Unit
  Same p q (suc n) = (byte_at p ≡ byte_at q) × Same (suc p) (suc q) n

  Same-of_compare : (p q n : ℕ) → is_zero (compare_bytes byte_at p q n) ≡ true → Same p q n
  unfolding compare_bytes
  Same-of_compare p q zero e = tt
  Same-of_compare p q (suc n) e = elim (ℕ_discrete (byte_at p) (byte_at q)) [
    | yes s ↦
        let rest : is_zero (compare_bytes byte_at (suc p) (suc q) n) ≡ true =
          subst
            (λ b.
              is_zero (
                if b
                then compare_bytes byte_at (suc p) (suc q) n
                else (if ltb (byte_at p) (byte_at q) then negsuc 0 else pos 1))
              ≡ true)
            (==_of_eq (byte_at p) (byte_at q) s) e in
        (s, Same-of_compare (suc p) (suc q) n rest)
    | no d ↦ absurd (
        true≢false (
          sym e
          ∙ (ap
                (λ b. is_zero (
                  if b
                  then compare_bytes byte_at (suc p) (suc q) n
                  else (if ltb (byte_at p) (byte_at q) then negsuc 0 else pos 1)))
                (==_of_ne (byte_at p) (byte_at q) d)
              ∙ is_zero-less (ltb (byte_at p) (byte_at q)))))
  ]

  compare_of_Same : (p q n : ℕ) → Same p q n → compare_bytes byte_at p q n ≡ pos 0
  unfolding compare_bytes
  compare_of_Same p q zero s = refl
  compare_of_Same p q (suc n) s =
      rw (==_of_eq (byte_at p) (byte_at q) s.0) (compare_of_Same (suc p) (suc q) n s.1)

  Same-refl : (p n : ℕ) → Same p p n
  Same-refl p zero = tt
  Same-refl p (suc n) = (refl, Same-refl (suc p) n)

  Same-join : (p q r n : ℕ) → Same p r n → Same q r n → Same p q n
  Same-join p q r zero a b = tt
  Same-join p q r (suc n) a b = (a.0 ∙ sym b.0, Same-join (suc p) (suc q) (suc r) n a.1 b.1)

  hash_of_Same : (p q n h : ℕ) → Same p q n → hash_bytes byte_at p n h ≡ hash_bytes byte_at q n h
  unfolding hash_bytes
  hash_of_Same p q zero h s = refl
  hash_of_Same p q (suc n) h s =
      ap (λ c. hash_bytes byte_at (suc p) n ((31 * h + char32 c) % 2 ^ 32)) s.0
      ∙ hash_of_Same (suc p) (suc q) n ((31 * h + char32 (byte_at q)) % 2 ^ 32) s.1

  keys-Same :
      (a m b n : ℕ) → is_zero (default_key_compare byte_at a m b n) ≡ true → (m ≡ n) × Same a b m
  unfolding default_key_compare
  keys-Same a m b n e = elim (ℕ_discrete m n) [
    | yes s ↦ (
      s,
      Same-of_compare a b m (
          subst
            (λ c.
              is_zero (
                if not c
                then (if ltb m n then negsuc 0 else pos 1)
                else compare_bytes byte_at a b m)
              ≡ true)
            (==_of_eq m n s) e),
    )
    | no d ↦ absurd (
        true≢false (
          sym e
          ∙ (ap
                (λ c. is_zero (
                  if not c
                  then (if ltb m n then negsuc 0 else pos 1)
                  else compare_bytes byte_at a b m))
                (==_of_ne m n d)
              ∙ is_zero-less (ltb m n))))
  ]

  compare-Same :
      (a m b n : ℕ) → m ≡ n → Same a b m → is_zero (default_key_compare byte_at a m b n) ≡ true
  unfolding default_key_compare
  compare-Same a m b n e s = rw (==_of_eq m n e, compare_of_Same a b m s) refl

  -- The default hash and the default comparison meet what the table asks of them: a key is equal to
  -- itself, keys that are equal to one key are equal, and equal keys have one hash.
  pub default-IsKeys : IsKeys (default_hash_code byte_at) (default_key_compare byte_at)
  unfolding default_hash_code
  default-IsKeys = record {
    reflexive = λ k l. compare-Same k l k l refl (Same-refl k l);
    euclidean = λ a m b n k l e f.
        let (ml, ab) = keys-Same a m k l e in
        let (nl, bk) = keys-Same b n k l f in
        compare-Same a m b n (ml ∙ sym nl)
          (Same-join a b k m ab (subst (Same b k) (nl ∙ sym ml) bk));
    hashed = λ a m b n e.
        let (mn, s) = keys-Same a m b n e in
        hash_of_Same a b m 0 s ∙ ap (λ w. hash_bytes byte_at b w 0) mn;
  }

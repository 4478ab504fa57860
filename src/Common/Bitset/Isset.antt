-- ===== src/Common/Bitset/Isset.antt =====
-- bitset_isset of common/bitset.h, where its `int` shift is defined and where it is not.
use my_test_module.Prelude.{
  ℕ, zero, suc, ◌/◌, ◌%◌, ◌-◌, ◌<◌, ◌≡◌, refl, ◌++◌, true, false, [], ◌∷◌, some, arith, get_or, set,
  replicate, ◌==◌, if◌then◌else◌,
}
use my_test_module.Common.Bitset.{
  Word, Bitset, nonzero, and_word, single, IntShift, word_at, bitset_isset,
}
use my_test_module.Common.Bitset.Laws.{bit_at}

nonzero-and_zeros : (n : ℕ) (w : Word) → nonzero (and_word w (replicate n false)) ≡ false
unfolding nonzero and_word
nonzero-and_zeros n [] = refl
nonzero-and_zeros zero (b ∷ w) = refl
nonzero-and_zeros (suc n) (true ∷ w) = nonzero-and_zeros n w
nonzero-and_zeros (suc n) (false ∷ w) = nonzero-and_zeros n w

nonzero-and_set :
    (n k : ℕ) (w : Word)
    → k < n
    → nonzero (and_word w (set (replicate n false) k true)) ≡ get_or w k false
unfolding nonzero and_word
nonzero-and_set zero k w h = absurd (omega arith)
nonzero-and_set (suc n) k [] h = refl
nonzero-and_set (suc n) zero (true ∷ w) h = refl
nonzero-and_set (suc n) zero (false ∷ w) h = nonzero-and_zeros n w
nonzero-and_set (suc n) (suc k) (true ∷ w) h = nonzero-and_set n k w (omega arith)
nonzero-and_set (suc n) (suc k) (false ∷ w) h = nonzero-and_set n k w (omega arith)

pub nonzero-and_single :
    (k : ℕ) (w : Word) → k < 64 → nonzero (and_word w (single k)) ≡ get_or w k false
nonzero-and_single k w h = nonzero-and_set 64 k w h

-- For an offset below 31 the test reads the bit, whatever the machine.
pub bitset_isset_lem :
    (shift : IntShift) (s : Bitset) (bit : ℕ)
    → bit < s.size
    → bit % 64 < 31
    → bitset_isset shift s bit ≡ some (bit_at s bit)
unfolding bitset_isset
bitset_isset_lem shift s bit h low = ground (
  arith,
  shift.one_shl_defined (bit % 64) low,
  nonzero-and_single (bit % 64) (word_at s (bit / 64)),
)

-- A machine that takes the count of a 32-bit shift modulo 32 and widens with the sign.
abbrev pub masked_shl : ℕ → Word
masked_shl k = if k % 32 == 31 then replicate 31 false ++ replicate 33 true else single (k % 32)

pub masked_shl_defined : (k : ℕ) → k < 31 → masked_shl k ≡ single k
masked_shl_defined k h = let e : k % 32 ≡ k = omega arith in rw e (ground arith)

abbrev pub masked_shift : IntShift
masked_shift = record { one_shl = masked_shl; one_shl_defined = masked_shl_defined }

-- On that machine an offset from 32 to 62 is tested 32 places too low.
pub bitset_isset_masked :
    (s : Bitset) (bit : ℕ)
    → bit < s.size
    → 31 < bit % 64
    → bit % 64 < 63
    → bitset_isset masked_shift s bit ≡ some (bit_at s (bit - 32))
unfolding bitset_isset
bitset_isset_masked s bit h low high =
    let e : (bit - 32) / 64 ≡ bit / 64 = omega arith in
    let f : (bit - 32) % 64 ≡ bit % 64 % 32 = omega arith in
    rw (e, f) (ground (arith, nonzero-and_single (bit % 64 % 32) (word_at s (bit / 64))))

-- ===== src/Common/Bitset/Laws.antt =====
-- What the operations of common/bitset.h do to the set of bits that are on.
use my_test_module.Prelude.{
  ℕ, zero, suc, ◌+◌, ◌*◌, ◌/◌, ◌%◌, ◌<◌, ◌≤◌, ◌≡◌, ◌≢◌, refl, ◌∙◌, ap, ◌&&◌, replicate, Bool, true,
  false, [], arith, get_or, set, length, All, length-set, get_or-set_self, get_or-set_ne, All-set,
  All-get_or, All-replicate, length-replicate, get_or-replicate, ltb, ◌==◌, if◌then◌else◌,
}
use native.Mathlib.Decide.{ℕ_discrete, dec_lt}
use my_test_module.Common.Bitset.{
  Bitset, zero_word, word_count, word_at, bitset_init, bitset_set, bitset_clear,
}

-- the bit `n` of the array
abbrev pub bit_at : Bitset → ℕ → Bool
bit_at s n = get_or (word_at s (n / 64)) (n % 64) false

-- The array has the words that the size asks for, each of 64 bits, and no bit past the size is on.
pub record IsValid (s : Bitset) : Type 0 where
  pub words : length s.bits ≡ word_count s.size
  pub widths : All (λ w. length w ≡ 64) s.bits
  pub clean : (n : ℕ) → s.size ≤ n → bit_at s n ≡ false

pub length-word_at :
    (s : Bitset) (n : ℕ) → IsValid s → n < s.size → length (word_at s (n / 64)) ≡ 64
length-word_at s n v h =
    All-get_or (λ w. length w ≡ 64) s.bits (n / 64) [] v.widths (omega (arith, v.words))

-- One bit of the array is written.
abbrev write_bit : Bitset → ℕ → Bool → Bitset
write_bit s bit b = record s {
  bits = set s.bits (bit / 64) (set (word_at s (bit / 64)) (bit % 64) b);
}

pub bit_at-write_bit_ne :
    (s : Bitset) (bit n : ℕ) (b : Bool)
    → IsValid s
    → bit < s.size
    → bit ≢ n
    → bit_at (write_bit s bit b) n ≡ bit_at s n
bit_at-write_bit_ne s bit n b v h ne = elim (ℕ_discrete (bit / 64) (n / 64)) [
  | yes e ↦ ground (
    arith,
    get_or-set_self s.bits (bit / 64) (set (word_at s (bit / 64)) (bit % 64) b) [],
    get_or-set_ne (word_at s (bit / 64)) (bit % 64) (n % 64) b false,
    v.words,
  )
  | no e ↦
      ap (λ w. get_or w (n % 64) false)
        (get_or-set_ne s.bits (bit / 64) (n / 64) (set (word_at s (bit / 64)) (bit % 64) b) [] e)
]

pub bit_at-write_bit_self :
    (s : Bitset) (bit : ℕ) (b : Bool)
    → IsValid s
    → bit < s.size
    → bit_at (write_bit s bit b) bit ≡ b
bit_at-write_bit_self s bit b v h =
    ap (λ w. get_or w (bit % 64) false)
      (get_or-set_self s.bits (bit / 64) (set (word_at s (bit / 64)) (bit % 64) b) []
        (omega (arith, v.words)))
    ∙ get_or-set_self (word_at s (bit / 64)) (bit % 64) b false
        (omega (arith, length-word_at s bit v h))

pub write_bit-IsValid :
    (s : Bitset) (bit : ℕ) (b : Bool) → IsValid s → bit < s.size → IsValid (write_bit s bit b)
write_bit-IsValid s bit b v h = record {
  words = length-set s.bits (bit / 64) (set (word_at s (bit / 64)) (bit % 64) b) ∙ v.words;
  widths =
      All-set (λ w. length w ≡ 64) s.bits (bit / 64) _ v.widths
        (length-set (word_at s (bit / 64)) (bit % 64) b ∙ length-word_at s bit v h);
  clean = λ n le. bit_at-write_bit_ne s bit n b v h (omega arith) ∙ v.clean n le;
}

bit_at-replicate : (k i j : ℕ) → get_or (get_or (replicate k zero_word) i []) j false ≡ false
bit_at-replicate zero i j = refl
bit_at-replicate (suc k) zero j = get_or-replicate 64 j false
bit_at-replicate (suc k) (suc i) j = bit_at-replicate k i j

-- An initialised set is well formed and empty.
pub bitset_init-IsValid : (size : ℕ) → IsValid (bitset_init size)
unfolding bitset_init
bitset_init-IsValid size = record {
  words = length-replicate (word_count size) zero_word;
  widths = All-replicate (λ w. length w ≡ 64) (word_count size) zero_word refl;
  clean = λ n le. bit_at-replicate (word_count size) (n / 64) (n % 64);
}

-- On a well-formed set, bitset_set fails past the size and changes nothing; else it turns on that
-- bit and no other, and it keeps the set well formed.
pub bitset_set_lem :
    (s : Bitset) (bit n : ℕ)
    → IsValid s
    → ((bitset_set s bit).1 ≡ ltb bit s.size)
      × (bit_at (bitset_set s bit).0 n ≡ (if ltb bit s.size && bit == n then true else bit_at s n))
      × ((bitset_set s bit).0.size ≡ s.size)
      × IsValid (bitset_set s bit).0
unfolding bitset_set
bitset_set_lem s bit n v = elim (dec_lt bit s.size) [
  | yes h ↦ ground (
    arith,
    bit_at-write_bit_ne s bit n true v h,
    bit_at-write_bit_self s bit true v h,
    write_bit-IsValid s bit true v h,
  )
  | no h ↦ ground arith
]

-- On a well-formed set, bitset_clear fails past the size and changes nothing; else it turns off
-- that bit and no other, and it keeps the set well formed.
pub bitset_clear_lem :
    (s : Bitset) (bit n : ℕ)
    → IsValid s
    → ((bitset_clear s bit).1 ≡ ltb bit s.size)
      × (bit_at (bitset_clear s bit).0 n
          ≡ (if ltb bit s.size && bit == n then false else bit_at s n))
      × ((bitset_clear s bit).0.size ≡ s.size)
      × IsValid (bitset_clear s bit).0
unfolding bitset_clear
bitset_clear_lem s bit n v = elim (dec_lt bit s.size) [
  | yes h ↦ ground (
    arith,
    bit_at-write_bit_ne s bit n false v h,
    bit_at-write_bit_self s bit false v h,
    write_bit-IsValid s bit false v h,
  )
  | no h ↦ ground arith
]

pub bit_at-init : (size n : ℕ) → bit_at (bitset_init size) n ≡ false
unfolding bitset_init
bit_at-init size n = bit_at-replicate (word_count size) (n / 64) (n % 64)

-- the position `j` of the word `i`
pub bit_at-index :
    (s : Bitset) (i j : ℕ) → j < 64 → bit_at s (i * 64 + j) ≡ get_or (word_at s i) j false
bit_at-index s i j h =
    let e : (i * 64 + j) / 64 ≡ i = omega arith in
    let f : (i * 64 + j) % 64 ≡ j = omega arith in rw (e, f)

pub size-init : (size : ℕ) → (bitset_init size).size ≡ size
unfolding bitset_init
size-init size = refl

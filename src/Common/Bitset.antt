-- ===== src/Common/Bitset.antt =====
-- common/bitset.h and bitset_next_clear_bit of common/bitset.c.
-- A `uint64_t` is the list of its 64 bits, the lowest first; an `int` that is never negative is a
-- number, and a result of -1 is `none`.
pub mod Words
pub mod Laws
pub mod Search
pub mod Isset
use my_test_module.Prelude.{
  ℕ, zero, suc, ◌+◌, ◌-◌, ◌*◌, ◌/◌, ◌%◌, Bool, true, false, not, ◌||◌, ◌&&◌, ◌<◌, ◌≡◌, List, [],
  ◌∷◌, map, Option, none, some, get_or, set, replicate, ltb, leb, ◌==◌, if◌then◌else◌,
}

abbrev pub Word : Type 0
Word = List Bool

abbrev pub zero_word : Word
zero_word = replicate 64 false

-- `word != 0`
unfoldable pub nonzero : Word → Bool
nonzero [] = false
nonzero (b ∷ w) = b || nonzero w

-- `__builtin_ctzll`, for a word that is not 0
unfoldable pub ctz : Word → ℕ
ctz [] = 0
ctz (true ∷ w) = 0
ctz (false ∷ w) = suc (ctz w)

-- `word & (0xffffffffffffffff << k)`
unfoldable pub mask_from : ℕ → Word → Word
mask_from zero w = w
mask_from (suc k) [] = []
mask_from (suc k) (b ∷ w) = false ∷ mask_from k w

-- `~word`
abbrev pub invert : Word → Word
invert w = map not w

pub record Bitset : Type 0 where
  pub size : ℕ
  pub bits : List Word

-- `(n + 63) >> 6`
abbrev pub word_count : ℕ → ℕ
word_count n = (n + 63) / 64

-- `set->bits[index]`
abbrev pub word_at : Bitset → ℕ → Word
word_at s i = get_or s.bits i []

unfoldable pub bitset_init : ℕ → Bitset
bitset_init size = record { size = size; bits = replicate (word_count size) zero_word }

-- The Boolean says whether the call succeeds (0) or fails (-1).
unfoldable pub bitset_set : Bitset → ℕ → Bitset × Bool
bitset_set s bit = if leb s.size bit then (s, false) else (
  record s { bits = set s.bits (bit / 64) (set (word_at s (bit / 64)) (bit % 64) true) },
  true,
)

unfoldable pub bitset_clear : Bitset → ℕ → Bitset × Bool
bitset_clear s bit = if leb s.size bit then (s, false) else (
  record s { bits = set s.bits (bit / 64) (set (word_at s (bit / 64)) (bit % 64) false) },
  true,
)

-- `a & b`
unfoldable pub and_word : Word → Word → Word
and_word [] w = []
and_word (a ∷ v) [] = []
and_word (a ∷ v) (b ∷ w) = (a && b) ∷ and_word v w

-- `(uint64_t)1 << k`
abbrev pub single : ℕ → Word
single k = set zero_word k true

-- The value of `1 << k`, a shift of an `int`, widened to 64 bits. C defines it for k below 31 only;
-- what the machine gives beyond that is a parameter.
pub record IntShift : Type 0 where
  pub one_shl : ℕ → Word
  pub one_shl_defined : (k : ℕ) → k < 31 → one_shl k ≡ single k

-- -1 past the size.
unfoldable pub bitset_isset : IntShift → Bitset → ℕ → Option Bool
bitset_isset shift s bit =
    if leb s.size bit
    then none
    else some (nonzero (and_word (word_at s (bit / 64)) (shift.one_shl (bit % 64))))

-- The loop of bitset_next_clear_bit on `fuel` rounds: `word` holds the clear bits of the word
-- `index` that are not before `from`.
unfoldable pub next_clear : ℕ → Bitset → ℕ → Word → Option ℕ
next_clear zero s index word = none
next_clear (suc fuel) s index word =
    let rest = next_clear fuel s (index + 1) (invert (word_at s (index + 1))) in
    if nonzero word
    then (if index * 64 + ctz word == s.size then none else some (index * 64 + ctz word))
    else if index + 1 == word_count s.size
    then (if (index + 1) * 64 == s.size then none else some ((index + 1) * 64))
    else rest

unfoldable pub bitset_next_clear_bit : Bitset → ℕ → Option ℕ
bitset_next_clear_bit s from =
    next_clear (word_count s.size) s (from / 64)
      (mask_from (from % 64) (invert (word_at s (from / 64))))

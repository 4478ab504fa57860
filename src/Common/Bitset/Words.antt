-- ===== src/Common/Bitset/Words.antt =====
-- Facts about single words of common/bitset.h.
use my_test_module.Prelude.{
  ℕ, zero, suc, ◌<◌, ◌≤◌, ◌≡◌, refl, true, false, not, [], ◌∷◌, arith, get_or, length,
}
use my_test_module.Common.Bitset.{Word, nonzero, ctz, mask_from, invert}

pub get_or-ctz : (w : Word) → nonzero w ≡ true → get_or w (ctz w) false ≡ true
unfolding nonzero ctz
get_or-ctz [] h = cc
get_or-ctz (true ∷ w) h = refl
get_or-ctz (false ∷ w) h = get_or-ctz w h

pub ctz-lt-length : (w : Word) → nonzero w ≡ true → ctz w < length w
unfolding nonzero ctz
ctz-lt-length [] h = cc
ctz-lt-length (true ∷ w) h = omega arith
ctz-lt-length (false ∷ w) h = omega (arith, ctz-lt-length w h)

pub get_or-before_ctz : (w : Word) (j : ℕ) → j < ctz w → get_or w j false ≡ false
unfolding ctz
get_or-before_ctz [] j h = refl
get_or-before_ctz (true ∷ w) j h = absurd (omega arith)
get_or-before_ctz (false ∷ w) zero h = refl
get_or-before_ctz (false ∷ w) (suc j) h = get_or-before_ctz w j (omega arith)

pub get_or-not_nonzero : (w : Word) (j : ℕ) → nonzero w ≡ false → get_or w j false ≡ false
unfolding nonzero
get_or-not_nonzero [] j h = refl
get_or-not_nonzero (true ∷ w) j h = cc
get_or-not_nonzero (false ∷ w) zero h = refl
get_or-not_nonzero (false ∷ w) (suc j) h = get_or-not_nonzero w j h

pub get_or-mask_from :
    (k j : ℕ) (w : Word) → k ≤ j → get_or (mask_from k w) j false ≡ get_or w j false
unfolding mask_from
get_or-mask_from zero j w h = refl
get_or-mask_from (suc k) j [] h = refl
get_or-mask_from (suc k) zero (b ∷ w) h = absurd (omega arith)
get_or-mask_from (suc k) (suc j) (b ∷ w) h = get_or-mask_from k j w (omega arith)

pub get_or-mask_from_lt : (k j : ℕ) (w : Word) → j < k → get_or (mask_from k w) j false ≡ false
unfolding mask_from
get_or-mask_from_lt zero j w h = absurd (omega arith)
get_or-mask_from_lt (suc k) j [] h = refl
get_or-mask_from_lt (suc k) zero (b ∷ w) h = refl
get_or-mask_from_lt (suc k) (suc j) (b ∷ w) h = get_or-mask_from_lt k j w (omega arith)

pub length-mask_from : (k : ℕ) (w : Word) → length (mask_from k w) ≡ length w
unfolding mask_from
length-mask_from zero w = refl
length-mask_from (suc k) [] = refl
length-mask_from (suc k) (b ∷ w) = omega (arith, length-mask_from k w)

pub get_or-invert :
    (w : Word) (j : ℕ) → j < length w → get_or (invert w) j false ≡ not (get_or w j false)
get_or-invert [] j h = absurd (omega arith)
get_or-invert (b ∷ w) zero h = refl
get_or-invert (b ∷ w) (suc j) h = get_or-invert w j (omega arith)

pub length-invert : (w : Word) → length (invert w) ≡ length w
length-invert [] = refl
length-invert (b ∷ w) = omega (arith, length-invert w)

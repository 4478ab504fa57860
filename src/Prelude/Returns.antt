-- ===== src/Prelude/Returns.antt =====
-- What a C function that returns `int` or `ssize_t` hands back: a count or an id, or an error.
use Prim.Native.Nat.{ℕ}
use mathlib.Core.Bool.{Bool, true, false}
use mathlib.Core.Path.{◌≡◌, refl}
use mathlib.Core.Logic.{◌⊎◌, inl, inr}

-- `fail e` is the negative number that stands for the error `e`.
pub data Code : Type 0 where
  value : ℕ → Code
  fail : ℕ → Code

-- `rc < 0`
abbrev pub is_fail : Code → Bool
is_fail (value n) = false
is_fail (fail e) = true

pub Code-cases : (rc : Code) → ((k : ℕ) × (rc ≡ value k)) ⊎ ((k : ℕ) × (rc ≡ fail k))
Code-cases (value k) = inl (k, refl)
Code-cases (fail k) = inr (k, refl)

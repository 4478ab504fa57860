-- ===== src/Carrier/CString.antt =====
-- The C library on strings, as carrier/IOEX_carrier.c uses it. A string is the list of its bytes
-- without the 0 that ends it; an array holds one up to its first 0.
pub mod Laws
use my_test_module.Prelude.{
  ℕ, suc, ◌+◌, ◌-◌, ◌*◌, ◌%◌, ◌^◌, Bool, true, false, not, ◌&&◌, ◌||◌, List, [], ◌∷◌, ◌++◌, Option,
  none, some, length, take, drop, replicate, leb, ◌==◌, if◌then◌else◌,
}

abbrev pub slash : ℕ
slash = 47

-- the string that an array holds
unfoldable pub c_string : List ℕ → List ℕ
c_string [] = []
c_string (b ∷ bs) = if b == 0 then [] else b ∷ c_string bs

-- `strncpy(dst, src, n)`: at most n bytes, and zeros up to n
unfoldable pub strncpy : List ℕ → List ℕ → ℕ → List ℕ
strncpy dst src n = take n (src ++ replicate n 0) ++ drop n dst

-- `snprintf(dst, n, "%s", s)`, as the string that `dst` holds then
abbrev pub snprintf : ℕ → List ℕ → List ℕ
snprintf n s = take (n - 1) s

-- `strrchr(s, c)`, as the index of the last `c`
unfoldable pub strrchr : List ℕ → ℕ → Option ℕ
strrchr [] c = none
strrchr (b ∷ bs) c = elim (strrchr bs c) [
  | none ↦ if b == c then some 0 else none
  | some i ↦ some (suc i)
]

-- whether `s[strlen(s) - 1]` is `c`, for a string that is not empty
unfoldable pub ends_with : List ℕ → ℕ → Bool
ends_with [] c = false
ends_with (b ∷ []) c = b == c
ends_with (b ∷ d ∷ bs) c = ends_with (d ∷ bs) c

abbrev is_space : ℕ → Bool
is_space b = b == 32 || leb 9 b && leb b 13

abbrev is_digit : ℕ → Bool
is_digit b = leb 48 b && leb b 57

abbrev ulong_max : ℕ
ulong_max = 2 ^ 64 - 1

-- the digits in front, after those read so far
unfoldable pub digits : List ℕ → ℕ → ℕ
digits [] n = n
digits (b ∷ bs) n = if is_digit b then digits bs (n * 10 + (b - 48)) else n

-- too large a number gives ULONG_MAX; a minus sign negates modulo 2 ^ 64
abbrev signed : Bool → ℕ → ℕ
signed minus n =
    if not (leb n ulong_max) then ulong_max else if minus then (2 ^ 64 - n) % 2 ^ 64 else n

-- `strtoul(s, NULL, 10)` where a long has 64 bits; `strtoull` is the same there
unfoldable pub strtoul : List ℕ → ℕ
strtoul [] = 0
strtoul (b ∷ bs) =
    let rest = strtoul bs in
    if is_space b
    then rest
    else if b == 45
    then signed true (digits bs 0)
    else if b == 43
    then signed false (digits bs 0)
    else signed false (digits (b ∷ bs) 0)

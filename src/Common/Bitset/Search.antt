-- ===== src/Common/Bitset/Search.antt =====
-- bitset_next_clear_bit finds the first clear bit.
use my_test_module.Prelude.{
  ℕ, zero, suc, ◌+◌, ◌*◌, ◌-◌, ◌/◌, ◌%◌, ◌<◌, ◌≤◌, ◌≡◌, ◌∙◌, ap, ◌&&◌, not, true, false, inl, inr,
  Option, none, some, arith, get_or, length, leb, ◌==◌, if◌then◌else◌, Bool-cases, leb→le, ==_of_eq,
  ==_of_ne, [], All-get_or,
}
use native.Mathlib.Decide.{dec_lt, ℕ_discrete}
use my_test_module.Common.Bitset.{
  Word, Bitset, nonzero, ctz, mask_from, invert, word_count, word_at, next_clear,
  bitset_next_clear_bit,
}
use my_test_module.Common.Bitset.Words.{
  get_or-ctz, ctz-lt-length, get_or-before_ctz, get_or-not_nonzero, get_or-mask_from,
  get_or-mask_from_lt, length-mask_from, get_or-invert, length-invert,
}
use my_test_module.Common.Bitset.Laws.{bit_at, bit_at-index, IsValid, length-word_at}

-- All bits of the range are on.
abbrev pub AllOn : Bitset → ℕ → ℕ → Type 0
AllOn s from to = (m : ℕ) → from ≤ m → m < to → bit_at s m ≡ true

-- What a search from `from` may answer: -1 if all bits are on, or the first that is off.
abbrev pub FirstClear : Bitset → ℕ → Option ℕ → Type 0
FirstClear s from none = AllOn s from s.size
FirstClear s from (some p) = (from ≤ p) × (p < s.size) × (bit_at s p ≡ false) × AllOn s from p

-- `word` holds the clear bits of the word `index` from `from` on.
record Masked (s : Bitset) (from index : ℕ) (word : Word) : Type 0 where
  width : length word ≡ 64
  clear :
      (j : ℕ)
      → j < 64
      → get_or word j false ≡ (not (bit_at s (index * 64 + j)) && leb from (index * 64 + j))

-- A bit that the mask lets through and that is not in the word is on.
on_of_Masked :
    (s : Bitset) (from index m : ℕ) (word : Word)
    → Masked s from index word
    → from ≤ m
    → index * 64 ≤ m
    → m < index * 64 + 64
    → get_or word (m - index * 64) false ≡ false
    → bit_at s m ≡ true
on_of_Masked s from index m word mk le lo hi off =
    let e : index * 64 + (m - index * 64) ≡ m = omega arith in
    ground (arith, mk.clear (m - index * 64), ap (bit_at s) e)

AllOn-size : (s : Bitset) (from p : ℕ) → IsValid s → from < s.size → AllOn s from p → p ≤ s.size
AllOn-size s from p v lt all = elim (dec_lt s.size p) [
  | yes h ↦ cc (all s.size (omega arith) h, v.clean s.size (omega arith))
  | no h ↦ omega arith
]

-- When the word holds a bit, the first one is the answer.
AllOn-ctz :
    (s : Bitset) (from index : ℕ) (word : Word)
    → Masked s from index word
    → AllOn s from (index * 64)
    → ctz word ≤ 64
    → AllOn s from (index * 64 + ctz word)
AllOn-ctz s from index word mk before small m le lt = elim (dec_lt m (index * 64)) [
  | yes h ↦ before m le h
  | no h ↦ elim (dec_lt m (index * 64 + 64)) [
    | yes k ↦
        on_of_Masked s from index m word mk le (omega arith) k
          (get_or-before_ctz word (m - index * 64) (omega arith))
    | no k ↦ absurd (omega arith)
  ]
]

hit_lem :
    (s : Bitset) (from index : ℕ) (word : Word)
    → IsValid s
    → from < s.size
    → Masked s from index word
    → AllOn s from (index * 64)
    → nonzero word ≡ true
    → FirstClear s from
        (if index * 64 + ctz word == s.size then none else some (index * 64 + ctz word))
hit_lem s from index word v lt mk before hit =
    let small : ctz word < 64 = omega (arith, ctz-lt-length word hit, mk.width) in
    let all = AllOn-ctz s from index word mk before (omega arith) in
    let top = AllOn-size s from (index * 64 + ctz word) v lt all in
    elim (ℕ_discrete (index * 64 + ctz word) s.size) [
      | yes e ↦ rw (==_of_eq _ _ e) (λ m le h. all m le (omega arith))
      | no ne ↦ rw (==_of_ne _ _ ne) (
        ground
            (arith, mk.clear (ctz word), get_or-ctz word hit, leb→le from (index * 64 + ctz word)),
        omega arith,
        ground (arith, mk.clear (ctz word), get_or-ctz word hit),
        all,
      )
    ]

-- When the word holds none, the search goes on after it.
AllOn-next :
    (s : Bitset) (from index : ℕ) (word : Word)
    → Masked s from index word
    → AllOn s from (index * 64)
    → nonzero word ≡ false
    → AllOn s from ((index + 1) * 64)
AllOn-next s from index word mk before miss m le lt = elim (dec_lt m (index * 64)) [
  | yes h ↦ before m le h
  | no h ↦
      on_of_Masked s from index m word mk le (omega arith) (omega arith)
        (get_or-not_nonzero word (m - index * 64) miss)
]

last_lem :
    (s : Bitset) (from index : ℕ)
    → IsValid s
    → from < s.size
    → AllOn s from ((index + 1) * 64)
    → index + 1 ≡ word_count s.size
    → FirstClear s from (if (index + 1) * 64 == s.size then none else some ((index + 1) * 64))
last_lem s from index v lt all e =
    let top = AllOn-size s from ((index + 1) * 64) v lt all in
    rw (==_of_eq ((index + 1) * 64) s.size (omega arith)) (λ m le h. all m le (omega arith))

Masked-next :
    (s : Bitset) (from index : ℕ)
    → IsValid s
    → from ≤ index * 64
    → index < word_count s.size
    → Masked s from index (invert (word_at s index))
Masked-next s from index v le lt =
    let width : length (word_at s index) ≡ 64 =
      All-get_or (λ w. length w ≡ 64) s.bits index [] v.widths (omega (arith, v.words)) in
    record {
      width = length-invert (word_at s index) ∙ width;
      clear = λ j h. ground (arith, get_or-invert (word_at s index) j, bit_at-index s index j h);
    }

next_clear_lem :
    (fuel : ℕ) (s : Bitset) (from index : ℕ) (word : Word)
    → IsValid s
    → from < s.size
    → Masked s from index word
    → AllOn s from (index * 64)
    → from ≤ (index + 1) * 64
    → index < word_count s.size
    → word_count s.size ≤ fuel + index
    → FirstClear s from (next_clear fuel s index word)
unfolding next_clear
next_clear_lem zero s from index word v lt mk before le inside enough = absurd (omega arith)
next_clear_lem (suc fuel) s from index word v lt mk before le inside enough =
    elim (Bool-cases (nonzero word)) [
      | inl hit ↦ rw hit (hit_lem s from index word v lt mk before hit)
      | inr miss ↦
          let all = AllOn-next s from index word mk before miss in
          elim (ℕ_discrete (index + 1) (word_count s.size)) [
            | yes e ↦ rw (miss, ==_of_eq _ _ e) (last_lem s from index v lt all e)
            | no ne ↦
                rw (miss, ==_of_ne _ _ ne)
                  (next_clear_lem fuel s from (index + 1) (invert (word_at s (index + 1))) v lt
                    (Masked-next s from (index + 1) v le (omega arith)) all (omega arith)
                    (omega arith) (omega arith))
          ]
    ]

Masked-first :
    (s : Bitset) (from : ℕ)
    → IsValid s
    → from < s.size
    → Masked s from (from / 64) (mask_from (from % 64) (invert (word_at s (from / 64))))
Masked-first s from v lt =
    let w = word_at s (from / 64) in
    let width = length-word_at s from v lt in
    record {
      width = length-mask_from (from % 64) (invert w) ∙ length-invert w ∙ width;
      clear = λ j h. elim (dec_lt j (from % 64)) [
        | yes k ↦ ground (arith, get_or-mask_from_lt (from % 64) j (invert w))
        | no k ↦ ground (
          arith,
          get_or-mask_from (from % 64) j (invert w),
          get_or-invert w j,
          bit_at-index s (from / 64) j h,
        )
      ];
    }

-- On a well-formed set and from a position inside it, bitset_next_clear_bit answers the first
-- position from there on that is clear, and -1 only when every bit from there to the size is on.
pub bitset_next_clear_bit_lem :
    (s : Bitset) (from : ℕ)
    → IsValid s
    → from < s.size
    → FirstClear s from (bitset_next_clear_bit s from)
unfolding bitset_next_clear_bit
bitset_next_clear_bit_lem s from v lt =
    next_clear_lem (word_count s.size) s from (from / 64) _ v lt (Masked-first s from v lt)
      (λ m le h. absurd (omega arith)) (omega arith) (omega arith) (omega arith)

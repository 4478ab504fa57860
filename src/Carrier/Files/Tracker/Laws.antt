-- ===== src/Carrier/Files/Tracker/Laws.antt =====
-- The list of trackers as a finite map from the friend's number and the file's number.
use my_test_module.Prelude.{
  ℕ, zero, suc, ◌≡◌, refl, sym, ap, ◌∙◌, Bool, true, false, ◌&&◌, List, [], ◌∷◌, ◌++◌, Option, none,
  some, arith, inl, inr, All, ◌==◌, if◌then◌else◌, Option-cases, Bool-cases,
}
use mathlib.Core.Path.{subst}
use mathlib.Core.Option.{some-injective, none-ne-some}
use my_test_module.Carrier.Files.{FileInfo}
use my_test_module.Carrier.Files.Tracker.{
  is_tracker, find_file_tracker, file_tracker, tracked, remove_tracker, update_file_tracker,
}

-- the tracker of a file, if there is one
unfoldable pub lookup : List FileInfo → ℕ → ℕ → Option FileInfo
lookup fts f n = tracked fts (find_file_tracker fts f n)

-- two files are the same
abbrev pub same_file : FileInfo → FileInfo → Bool
same_file a b = is_tracker a.friend_number a.file_index b

-- No file has two trackers.
abbrev pub IsDistinct : List FileInfo → Type 0
IsDistinct [] = Unit
IsDistinct (a ∷ fts) = All (λ (b : FileInfo). same_file a b ≡ false) fts × IsDistinct fts

lookup-nil : (f n : ℕ) → lookup [] f n ≡ none
unfolding lookup find_file_tracker
lookup-nil f n = refl

-- the head of the list is found, or the search goes on
pub lookup-cons :
    (a : FileInfo) (fts : List FileInfo) (f n : ℕ)
    → lookup (a ∷ fts) f n ≡ (if is_tracker f n a then some a else lookup fts f n)
unfolding lookup find_file_tracker file_tracker
lookup-cons a fts f n = elim (Bool-cases (is_tracker f n a)) [
  | inl e ↦ rw e refl
  | inr e ↦ elim (Option-cases (find_file_tracker fts f n)) [
    | inl r ↦ rw (e, r) refl
    | inr (i, r) ↦ rw (e, r) refl
  ]
]

-- the place of the first tracker of the file
find-cons :
    (a : FileInfo) (fts : List FileInfo) (f n : ℕ)
    → find_file_tracker (a ∷ fts) f n ≡ (
        if is_tracker f n a
        then some 0
        else elim (find_file_tracker fts f n) [ none ↦ none | some i ↦ some (suc i) ])
unfolding find_file_tracker
find-cons a fts f n = refl

pub lookup-append :
    (fts : List FileInfo) (a : FileInfo) (f n : ℕ)
    → lookup (fts ++ a ∷ []) f n ≡ elim (lookup fts f n) [
      | none ↦ (if is_tracker f n a then some a else none)
      | some b ↦ some b
    ]
lookup-append [] a f n = rw (lookup-cons a [] f n, lookup-nil f n) refl
lookup-append (b ∷ fts) a f n =
    lookup-cons b (fts ++ a ∷ []) f n ∙ elim (Bool-cases (is_tracker f n b)) [
      | inl e ↦ rw (e, lookup-cons b fts f n, e) refl
      | inr e ↦ rw (e, lookup-cons b fts f n, e) (lookup-append fts a f n)
    ]

-- what is found has the numbers that were asked for
pub is_tracker-lookup :
    (fts : List FileInfo) (f n : ℕ) {info : FileInfo}
    → lookup fts f n ≡ some info
    → is_tracker f n info ≡ true
is_tracker-lookup [] f n {info} e = absurd (none-ne-some info (sym (lookup-nil f n) ∙ e))
is_tracker-lookup (a ∷ fts) f n {info} e = elim (Bool-cases (is_tracker f n a)) [
  | inl h ↦
      let same : a ≡ info = some-injective _ _ (rw (lookup-cons a fts f n, h) at e) in
      ap (is_tracker f n) (sym same) ∙ h
  | inr h ↦ is_tracker-lookup fts f n (rw (lookup-cons a fts f n, h) at e)
]

-- no second tracker of the same file
lookup-others :
    (a : FileInfo) (fts : List FileInfo) (f n : ℕ)
    → is_tracker f n a ≡ true
    → All (λ (b : FileInfo). same_file a b ≡ false) fts
    → lookup fts f n ≡ none
lookup-others a [] f n e all = lookup-nil f n
lookup-others a (b ∷ fts) f n e (h, all) =
    let ne : is_tracker f n b ≡ false = ground arith in
    lookup-cons b fts f n ∙ rw ne (lookup-others a fts f n e all)

-- The removed tracker is the one that was found; every other file keeps its own.
pub lookup-remove :
    (fts : List FileInfo) (f n i : ℕ)
    → IsDistinct fts
    → find_file_tracker fts f n ≡ some i
    → (f' n' : ℕ)
    → lookup (remove_tracker fts i) f' n' ≡ (if f == f' && n == n' then none else lookup fts f' n')
unfolding remove_tracker find_file_tracker
lookup-remove [] f n i d e f' n' = absurd (none-ne-some i e)
lookup-remove (a ∷ fts) f n i (all, d) e f' n' = elim (Bool-cases (is_tracker f n a)) [
  | inl h ↦
      let z : zero ≡ i = some-injective _ _ (rw h at e) in
      subst
        (λ j.
          lookup (remove_tracker (a ∷ fts) j) f' n'
          ≡ (if f == f' && n == n' then none else lookup (a ∷ fts) f' n'))
        z
        (elim (Bool-cases (f == f' && n == n')) [
          | inl same ↦ rw same (lookup-others a fts f' n' (ground arith) all)
          | inr other ↦
              let ne : is_tracker f' n' a ≡ false = ground arith in
              rw (other, lookup-cons a fts f' n', ne) refl
        ])
  | inr h ↦ elim (Option-cases (find_file_tracker fts f n)) [
    | inl r ↦ absurd (none-ne-some i (rw (h, r) at e))
    | inr (j, r) ↦
        let z : suc j ≡ i = some-injective _ _ (rw (h, r) at e) in
        subst
          (λ j.
            lookup (remove_tracker (a ∷ fts) j) f' n'
            ≡ (if f == f' && n == n' then none else lookup (a ∷ fts) f' n'))
          z
          (rw (lookup-cons a (remove_tracker fts j) f' n', lookup-cons a fts f' n')
            (elim (Bool-cases (is_tracker f' n' a)) [
              | inl t ↦
                  let other : (f == f' && n == n') ≡ false = ground arith in rw (t, other) refl
              | inr t ↦ rw t (lookup-remove fts f n j d r f' n')
            ]))
  ]
]

-- A pointer that find_file_tracker returns points to the tracker of the file.
pub find-lookup :
    (fts : List FileInfo) (f n : ℕ) {info : FileInfo}
    → lookup fts f n ≡ some info
    → (i : ℕ) × (find_file_tracker fts f n ≡ some i) × (tracked fts (some i) ≡ some info)
unfolding lookup
find-lookup fts f n {info} e = elim (Option-cases (find_file_tracker fts f n)) [
  | inl r ↦ absurd (none-ne-some info (rw r at e))
  | inr (i, r) ↦ (i, r, rw r at e)
]

pub find_of_lookup-none :
    (fts : List FileInfo) (f n : ℕ) → lookup fts f n ≡ none → find_file_tracker fts f n ≡ none
unfolding find_file_tracker
find_of_lookup-none [] f n e = refl
find_of_lookup-none (a ∷ fts) f n e = elim (Bool-cases (is_tracker f n a)) [
  | inl h ↦ absurd (none-ne-some a (sym (rw (lookup-cons a fts f n, h) at e)))
  | inr h ↦ rw (h, find_of_lookup-none fts f n (rw (lookup-cons a fts f n, h) at e)) refl
]

-- A write through that pointer, which keeps the numbers, is seen at its file alone.
pub lookup-update :
    (fts : List FileInfo) (f n i : ℕ) (g : FileInfo → FileInfo)
    → ((a : FileInfo) → ((g a).friend_number ≡ a.friend_number) × ((g a).file_index ≡ a.file_index))
    → {info : FileInfo} → find_file_tracker fts f n ≡ some i
    → lookup fts f n ≡ some info
    → (f' n' : ℕ)
    → lookup (update_file_tracker fts i g) f' n'
      ≡ (if f == f' && n == n' then some (g info) else lookup fts f' n')
unfolding update_file_tracker find_file_tracker
lookup-update [] f n i g keeps e at f' n' = absurd (none-ne-some i e)
lookup-update (a ∷ fts) f n i g keeps {info} e at f' n' = elim (Bool-cases (is_tracker f n a)) [
  | inl h ↦
      let z : zero ≡ i = some-injective _ _ (rw h at e) in
      let found : a ≡ info = some-injective _ _ (rw (lookup-cons a fts f n, h) at at) in
      moved z found (here h)
  | inr h ↦ elim (Option-cases (find_file_tracker fts f n)) [
    | inl r ↦ absurd (none-ne-some i (rw (h, r) at e))
    | inr (j, r) ↦
        let z : suc j ≡ i = some-injective _ _ (rw (h, r) at e) in
        subst (λ k. Seen k info) z
          (there h j (
            lookup-update fts f n j g keeps {info = info} r (rw (lookup-cons a fts f n, h) at at) f'
              n'))
  ]
]
  where
    Seen : ℕ → FileInfo → Type 0
    Seen k b =
        lookup (update_file_tracker (a ∷ fts) k g) f' n'
        ≡ (if f == f' && n == n' then some (g b) else lookup (a ∷ fts) f' n')

    same_numbers : is_tracker f' n' (g a) ≡ is_tracker f' n' a
    same_numbers = rw ((keeps a).0, (keeps a).1) refl

    moved : zero ≡ i → a ≡ info → Seen zero a → Seen i info
    moved z found t = subst (λ k. Seen k info) z (subst (λ b. Seen zero b) found t)

    here : is_tracker f n a ≡ true → Seen zero a
    here h =
        rw (lookup-cons (g a) fts f' n', lookup-cons a fts f' n', same_numbers)
          (elim (Bool-cases (f == f' && n == n')) [
            | inl same ↦ let t : is_tracker f' n' a ≡ true = ground arith in rw (same, t) refl
            | inr other ↦ let t : is_tracker f' n' a ≡ false = ground arith in rw (other, t) refl
          ])

    there :
        is_tracker f n a ≡ false
        → (j : ℕ)
        → lookup (update_file_tracker fts j g) f' n'
          ≡ (if f == f' && n == n' then some (g info) else lookup fts f' n')
        → Seen (suc j) info
    there h j rest =
        rw (lookup-cons a (update_file_tracker fts j g) f' n', lookup-cons a fts f' n')
          (elim (Bool-cases (is_tracker f' n' a)) [
            | inl t ↦ let other : (f == f' && n == n') ≡ false = ground arith in rw (t, other) refl
            | inr t ↦ rw t rest
          ])

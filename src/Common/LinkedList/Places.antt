-- ===== src/Common/LinkedList/Places.antt =====
-- Where the cursors of common/linkedlist.c come to stand.
use my_test_module.Prelude.{
  ℕ, zero, suc, ◌-◌, ◌≤◌, ◌<◌, ◌≡◌, refl, sym, ap, ◌∙◌, true, List, [], ◌∷◌, ◌++◌, arith, length,
  take, drop, get_or, length-append, length-take, length-drop, take-append-drop, tests, ℤ, pos,
  negsuc,
}
use mathlib.Core.Path.{subst}
use mathlib.Core.List.{reverse, reverse-cons, reverse-append}
use my_test_module.Common.Ring.{Chain, Front, last, first, IsRing}
use my_test_module.Common.Ring.Chain.{Front-of_Chain, first-reverse, reverse-middle}
use my_test_module.Common.LinkedList.{
  LinkedList, follow, can_insert, is_index, insert_cursor, entry_at,
}

pub length-reverse : (xs : List ℕ) → length (reverse xs) ≡ length xs
length-reverse [] = refl
length-reverse (x ∷ xs) =
    rw (reverse-cons x xs, length-append (reverse xs) (x ∷ []), length-reverse xs) (omega arith)

pub follow-suc : (f : ℕ → ℕ) (n a : ℕ) → follow f (suc n) a ≡ f (follow f n a)
unfolding follow
follow-suc f zero a = refl
follow-suc f (suc n) a = follow-suc f n (f a)

pub follow-Front :
    (f : ℕ → ℕ) (a : ℕ) (ys : List ℕ) → Front f a ys → follow f (length ys) a ≡ last a ys
unfolding follow
follow-Front f a [] c = refl
follow-Front f a (y ∷ ys) c = ap (follow f (length ys)) c.0 ∙ follow-Front f y ys c.1

-- one more step than the entries before
pub follow-Chain :
    (f : ℕ → ℕ) (a : ℕ) (ys zs : List ℕ) (b : ℕ)
    → Chain f a (ys ++ zs) b
    → follow f (suc (length ys)) a ≡ first zs b
follow-Chain f a ys zs b c =
    let (l, (m, r)) = Front-of_Chain f a ys zs b c in
    rw (follow-suc f (length ys) a, follow-Front f a ys l, m)

-- the places that an index of list_insert and one of list_remove and list_get stand for
abbrev pub place : ℕ → ℤ → ℕ
place n (pos i) = i
place n (negsuc k) = n - k

abbrev pub position : ℕ → ℤ → ℕ
position n (pos i) = i
position n (negsuc k) = n - suc k

pub place_le : (n : ℕ) (index : ℤ) → can_insert n index ≡ true → place n index ≤ n
place_le n (pos i) h = omega tests
place_le n (negsuc k) h = omega arith

pub position_lt : (n : ℕ) (index : ℤ) → is_index n index ≡ true → position n index < n
position_lt n (pos i) h = omega tests
position_lt n (negsuc k) h = omega tests

pub take-get-drop :
    (xs : List ℕ) (i : ℕ) → i < length xs → take i xs ++ (get_or xs i 0 ∷ drop (suc i) xs) ≡ xs
take-get-drop [] i h = absurd (omega arith)
take-get-drop (x ∷ xs) zero h = refl
take-get-drop (x ∷ xs) (suc i) h = ap (λ t. x ∷ t) (take-get-drop xs i (omega arith))

module _ (l : LinkedList) (xs : List ℕ) (ring : IsRing l.next l.prev l.head xs) where
  abbrev Back :
      (ys zs : List ℕ) → ys ++ zs ≡ xs → Chain l.prev l.head (reverse zs ++ reverse ys) l.head
  Back ys zs e =
      subst (λ t. Chain l.prev l.head t l.head) (ap reverse (sym e) ∙ reverse-append ys zs) ring.1.0

  abbrev Forth : (ys zs : List ℕ) → ys ++ zs ≡ xs → Chain l.next l.head (ys ++ zs) l.head
  Forth ys zs e = subst (λ t. Chain l.next l.head t l.head) (sym e) ring.0

  pub insert_cursor_lem :
      (index : ℤ)
      → can_insert (length xs) index ≡ true
      → insert_cursor l index ≡ last l.head (take (place (length xs) index) xs)
  insert_cursor_lem (pos i) h =
      let fits = place_le (length xs) (pos i) h in
      let n : length (take i xs) ≡ i = rw (length-take i xs) (omega arith) in
      subst (λ k. follow l.next k l.head ≡ last l.head (take i xs)) n
        (follow-Front l.next l.head (take i xs)
          (Front-of_Chain l.next l.head (take i xs) (drop i xs) l.head
            (Forth (take i xs) (drop i xs) (take-append-drop i xs))).0)
  insert_cursor_lem (negsuc k) h =
      let p = length xs - k in
      let fits : k ≤ length xs = omega tests in
      let n : length (reverse (drop p xs)) ≡ k =
        rw (length-reverse (drop p xs), length-drop p xs) (omega arith) in
      subst (λ j. follow l.prev (suc j) l.head ≡ last l.head (take p xs)) n
        (follow-Chain l.prev l.head (reverse (drop p xs)) (reverse (take p xs)) l.head
            (Back (take p xs) (drop p xs) (take-append-drop p xs))
          ∙ first-reverse l.head (take p xs))

  pub entry_at_lem :
      (index : ℤ)
      → is_index (length xs) index ≡ true
      → entry_at l index ≡ get_or xs (position (length xs) index) 0
  unfolding follow
  entry_at_lem (pos i) h =
      let lt = position_lt (length xs) (pos i) h in
      let n : length (take i xs) ≡ i = rw (length-take i xs) (omega arith) in
      let e = get_or xs i 0 in
      subst (λ j. follow l.next (suc j) l.head ≡ e) n
        (follow-Chain l.next l.head (take i xs) (e ∷ drop (suc i) xs) l.head
          (Forth (take i xs) (e ∷ drop (suc i) xs) (take-get-drop xs i lt)))
  entry_at_lem (negsuc k) h =
      let lt = position_lt (length xs) (negsuc k) h in
      let p = length xs - suc k in
      let e = get_or xs p 0 in
      let zs = drop (suc p) xs in
      let fits : suc k ≤ length xs = omega tests in
      let n : length (reverse zs) ≡ k =
        rw (length-reverse zs, length-drop (suc p) xs) (omega arith) in
      let back : Chain l.prev l.head (reverse zs ++ (e ∷ reverse (take p xs))) l.head =
        subst (λ t. Chain l.prev l.head t l.head)
          (ap reverse (sym (take-get-drop xs p lt)) ∙ reverse-middle (take p xs) zs e) ring.1.0 in
      subst (λ j. follow l.prev (suc j) l.head ≡ e) n
        (follow-Chain l.prev l.head (reverse zs) (e ∷ reverse (take p xs)) l.head back)

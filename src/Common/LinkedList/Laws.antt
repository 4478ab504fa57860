-- ===== src/Common/LinkedList/Laws.antt =====
-- The operations of common/linkedlist.c change the entries as those of a sequence.
use my_test_module.Prelude.{
  ℕ, zero, suc, ◌+◌, ◌^◌, ◌≤◌, ◌<◌, ◌≡◌, ◌≢◌, refl, sym, ap, ◌∙◌, List, [], ◌∷◌, ◌++◌, arith, All,
  length, length-append, ==_of_eq, ==_of_ne, Bool, some, ℤ, pos, negsuc, if◌then◌else◌,
}
use mathlib.Core.Path.{subst}
use mathlib.Core.List.{reverse}
use my_test_module.Common.RcMem.{RcMem, deref}
use my_test_module.Common.Ring.{update, Back, last, first, IsOff, IsRing}
use my_test_module.Common.Ring.Chain.{
  update_same, update_ne, All-append, All-of_append, All-last, All-first, Front-of_Chain,
  Chain-update, All-reverse,
}
use my_test_module.Common.Ring.Surgery.{
  IsRing-link, IsRing-unlink, beside, All-beside, IsDistinct-beside,
}
use my_test_module.Common.LinkedList.{
  LinkedList, insert_behind, unlink, find_entry, is_match, deref_entries, list_clear, cleared,
}

-- The list holds these entries in this order: its size counts them, and fits an `int`; the ring
-- goes through them, and none of them is NULL or without data.
abbrev pub IsList : LinkedList → List ℕ → Type 0
IsList l xs =
    (l.size ≡ length xs)
    × ((length xs < 2 ^ 31)
        × (IsRing l.next l.prev l.head xs
            × ((l.head ≢ 0) × All (λ (x : ℕ). (x ≢ 0) × (l.data_of x ≢ 0)) xs)))

pub insert_behind-IsList :
    (l : LinkedList) (ys zs : List ℕ) (e : ℕ)
    → IsList l (ys ++ zs)
    → length (ys ++ zs) + 1 < 2 ^ 31
    → e ≢ 0
    → l.data_of e ≢ 0
    → IsOff e (l.head ∷ (ys ++ zs))
    → IsList (insert_behind l (last l.head ys) e) (ys ++ (e ∷ zs))
unfolding insert_behind
insert_behind-IsList l ys zs e (size, (_, (ring, (head, real)))) room nonzero full off =
    let cur = last l.head ys in
    let q = first zs l.head in
    let nq : l.next cur ≡ q = (Front-of_Chain l.next l.head ys zs l.head ring.0).1.0 in
    let (off_l, off_r) = All-of_append (λ (x : ℕ). e ≢ x) ys zs off.1 in
    let ne : e ≢ cur = All-last (λ (x : ℕ). e ≢ x) l.head ys off.0 off_l in
    let n1 : update l.next e q cur ≡ q = update_ne l.next e cur q ne ∙ nq in
    let count : length (ys ++ (e ∷ zs)) ≡ suc (length (ys ++ zs)) =
      rw (length-append ys (e ∷ zs), length-append ys zs) (omega arith) in
    let ring' = IsRing-link l.next l.prev l.head ys zs e off ring in
    let (rl, rr) = All-of_append (λ (x : ℕ). (x ≢ 0) × (l.data_of x ≢ 0)) ys zs real in
    (
      omega arith,
      (
        omega arith,
        (
          subst
              (λ v.
                IsRing (update (update l.next e v) cur e)
                  (update (update l.prev e cur) (update l.next e v cur) e) l.head (ys ++ (e ∷ zs)))
              (sym nq)
              (subst
                (λ v.
                  IsRing (update (update l.next e q) cur e) (update (update l.prev e cur) v e)
                    l.head (ys ++ (e ∷ zs)))
                (sym n1) ring'),
          (
            head,
            All-append (λ (x : ℕ). (x ≢ 0) × (l.data_of x ≢ 0)) ys (e ∷ zs) rl
                ((nonzero, full), rr),
          ),
        ),
      ),
    )

-- an entry of the list is apart from the head and from the others
pub IsOff-entry :
    (l : LinkedList) (ys zs : List ℕ) (e : ℕ)
    → IsRing l.next l.prev l.head (ys ++ (e ∷ zs))
    → IsOff e (l.head ∷ (ys ++ zs))
IsOff-entry l ys zs e (_, (_, (apart, d))) = (
  (λ q. (All-beside (λ (x : ℕ). l.head ≢ x) ys zs e apart).0 (sym q)),
  (IsDistinct-beside ys zs e d).0,
)

pub unlink-IsList :
    (l : LinkedList) (ys zs : List ℕ) (e : ℕ)
    → IsList l (ys ++ (e ∷ zs))
    → IsList (unlink l e) (ys ++ zs)
unfolding unlink
unlink-IsList l ys zs e (size, (bound, (ring, (head, real)))) =
    let p = last l.head ys in
    let q = first zs l.head in
    let h = l.head in
    let off = IsOff-entry l ys zs e ring in
    let (off_l, off_r) = All-of_append (λ (x : ℕ). e ≢ x) ys zs off.1 in
    let (ne, pe) = beside l.next l.prev h ys zs e ring in
    let e_q : e ≢ q = All-first (λ (x : ℕ). e ≢ x) zs h off.0 off_r in
    let n_e : l.next e ≢ e = λ k. e_q (sym k ∙ ne) in
    let back : update l.prev (l.next e) (l.prev e) e ≡ p =
      update_ne l.prev (l.next e) e (l.prev e) n_e ∙ pe in
    let (forth', (back', d')) = IsRing-unlink l.next l.prev h ys zs e ring in
    let count : length (ys ++ (e ∷ zs)) ≡ suc (length (ys ++ zs)) =
      rw (length-append ys (e ∷ zs), length-append ys zs) (omega arith) in
    let ring' : IsRing (update (update l.next p q) e 0) (update (update l.prev q p) e 0) h
        (ys ++ zs) =
      (
        Chain-update (update l.next p q) e 0 h (ys ++ zs) h off forth',
        (
          Chain-update (update l.prev q p) e 0 h (reverse (ys ++ zs)) h
              (off.0, All-reverse (λ (x : ℕ). e ≢ x) (ys ++ zs) off.1) back',
          d',
        ),
      ) in
    (
      omega arith,
      (
        omega arith,
        (
          subst
              (λ u.
                IsRing (update (update l.next u (l.next e)) e 0)
                  (update (update l.prev (l.next e) (l.prev e)) e 0) h (ys ++ zs))
              (sym back)
              (subst
                (λ v.
                  IsRing (update (update l.next p v) e 0) (update (update l.prev v (l.prev e)) e 0)
                    h (ys ++ zs))
                (sym ne)
                (subst
                  (λ v.
                    IsRing (update (update l.next p q) e 0) (update (update l.prev q v) e 0) h
                      (ys ++ zs))
                  (sym pe) ring')),
          (head, (All-beside (λ (x : ℕ). (x ≢ 0) × (l.data_of x ≢ 0)) ys zs e real).1),
        ),
      ),
    )

-- the first entry that passes, counted from `i`
abbrev pub find_index : (ℕ → Bool) → List ℕ → ℕ → ℤ
find_index p [] i = negsuc 0
find_index p (x ∷ xs) i = if p x then pos i else find_index p xs (suc i)

pub find_entry_lem :
    (l : LinkedList) (entry : ℕ) (xs : List ℕ) (i : ℕ)
    → Back l.next xs l.head
    → find_entry l (length xs) (first xs l.head) i entry
      ≡ find_index (λ x. is_match l.data_of l.compare x entry) xs i
unfolding find_entry
find_entry_lem l entry [] i c = refl
find_entry_lem l entry (x ∷ xs) i c =
    let (_, (m, r)) = Front-of_Chain l.next x [] xs l.head c in
    ap (λ t. if is_match l.data_of l.compare x entry then pos i else t)
      (ap (λ t. find_entry l (length xs) t (suc i) entry) m ∙ find_entry_lem l entry xs (suc i) r)

abbrev pub deref_all : RcMem → (ℕ → ℕ) → List ℕ → RcMem
deref_all m f [] = m
deref_all m f (x ∷ xs) = deref_all (deref m (f x)) f xs

pub deref_entries_lem :
    (n : ℕ) (l : LinkedList) (xs : List ℕ) (m : RcMem)
    → length xs ≤ n
    → Back l.next xs l.head
    → IsOff l.head xs
    → deref_entries n l (first xs l.head) m ≡ some (deref_all m l.data_of xs)
unfolding deref_entries
deref_entries_lem zero l [] m le c off = rw (==_of_eq l.head l.head refl)
deref_entries_lem zero l (x ∷ xs) m le c off = absurd (omega arith)
deref_entries_lem (suc n) l [] m le c off = rw (==_of_eq l.head l.head refl)
deref_entries_lem (suc n) l (x ∷ xs) m le c off =
    let (_, (e, r)) = Front-of_Chain l.next x [] xs l.head c in
    rw (==_of_ne x l.head (λ q. off.0 (sym q))) (
      ap (λ t. deref_entries n l t (deref m (l.data_of x))) e
      ∙ deref_entries_lem n l xs (deref m (l.data_of x)) (omega arith) r off.1)

-- The ring of a list from its first entry
pub Back-of_ring :
    (l : LinkedList) (xs : List ℕ)
    → IsRing l.next l.prev l.head xs
    → (l.next l.head ≡ first xs l.head) × Back l.next xs l.head
Back-of_ring l xs (forth, _) =
    let (_, (e, r)) = Front-of_Chain l.next l.head [] xs l.head forth in (e, r)

-- On a valid list list_clear ends; it gives up each data once, and leaves the empty list.
pub list_clear_lem :
    (l : LinkedList) (xs : List ℕ)
    → IsList l xs
    → (l' : LinkedList) × ((list_clear l ≡ some l')
        × ((IsList l' [] × (l'.memory ≡ deref_all l.memory l.data_of xs))
            × ((l'.head ≡ l.head) × ((l'.data_of ≡ l.data_of) × (l'.compare ≡ l.compare)))))
unfolding list_clear
list_clear_lem l xs (size, (bound, (ring, (head, real)))) =
    let (e, r) = Back-of_ring l xs ring in
    let done : deref_entries l.size l (l.next l.head) l.memory
        ≡ some (deref_all l.memory l.data_of xs) =
      ap (λ t. deref_entries l.size l t l.memory) e
      ∙ deref_entries_lem l.size l xs l.memory (omega arith) r ring.1.1.0 in
    (
      _,
      (
        ap (cleared l) done,
        (
          (
            (
              refl,
              (
                omega arith,
                (
                  (update_same l.next l.head l.head, (update_same l.prev l.head l.head, (tt, tt))),
                  (head, tt),
                ),
              ),
            ),
            refl,
          ),
          (refl, (refl, refl)),
        ),
      ),
    )

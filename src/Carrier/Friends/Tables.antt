-- ===== src/Carrier/Friends/Tables.antt =====
-- The tables of carrier/friends.h, carrier/tcallbacks.h and carrier/thistory.h: what the hash table
-- promises, by the comparison of each.
use my_test_module.Prelude.{
  ℕ, ◌+◌, ◌*◌, ◌/◌, ◌%◌, ◌^◌, ◌≡◌, refl, sym, ap, ◌∙◌, Bool, true, false, Bool-cases, inl, inr,
  ◌&&◌, List, [], ◌∷◌, Option, none, some, ◌==◌, ==_of_eq, ==_iff, if◌then◌else◌,
}
use mathlib.Core.Option.{none-ne-some, some-injective}
use mathlib.Core.Bool.{true≢false}
use my_test_module.Carrier.CString.{c_string}
use my_test_module.Common.Hashtable.{char32}
use my_test_module.Carrier.Friends.{FriendInfo, TransactedCallback, HistoryItem}

-- A table over a test of the key: one entry for a key, in the order of insertion.
module _ {ℓ} {A : Type ℓ} (p : A → Bool) where
  abbrev pub get : List A → Option A
  get [] = none
  get (x ∷ xs) = if p x then some x else get xs

  abbrev pub put : List A → A → List A
  put [] e = e ∷ []
  put (x ∷ xs) e = if p x then e ∷ xs else x ∷ put xs e

  abbrev pub remove : List A → List A
  remove [] = []
  remove (x ∷ xs) = if p x then xs else x ∷ remove xs

  pub get-put : (xs : List A) (e : A) → p e ≡ true → get (put xs e) ≡ some e
  get-put [] e h = rw h refl
  get-put (x ∷ xs) e h = elim (Bool-cases (p x)) [
    | inl hit ↦ rw (hit, h) refl
    | inr miss ↦ rw (miss, miss) (get-put xs e h)
  ]

  pub remove-put : (xs : List A) (e : A) → p e ≡ true → get xs ≡ none → remove (put xs e) ≡ xs
  remove-put [] e h new = rw h refl
  remove-put (x ∷ xs) e h new = elim (Bool-cases (p x)) [
    | inl hit ↦ absurd (none-ne-some x (sym (new_of hit)))
    | inr miss ↦ rw (miss, miss) (ap (λ t. x ∷ t) (remove-put xs e h (ne_of miss)))
  ]
    where
      new_of : p x ≡ true → some x ≡ none
      new_of hit = sym (ap (λ b. if b then some x else get xs) hit) ∙ new

      ne_of : p x ≡ false → get xs ≡ none
      ne_of miss = sym (ap (λ b. if b then some x else get xs) miss) ∙ new

-- the four bytes of a friend number, the lowest first
abbrev pub number_bytes : ℕ → List ℕ
number_bytes n = n % 256 ∷ n / 256 % 256 ∷ n / 65536 % 256 ∷ n / 16777216 % 256 ∷ []

-- default_hash_code on bytes
abbrev pub bytes_hash : List ℕ → ℕ → ℕ
bytes_hash [] h = h
bytes_hash (b ∷ bs) h = bytes_hash bs ((31 * h + char32 b) % 2 ^ 32)

abbrev pub same_bytes : List ℕ → List ℕ → Bool
same_bytes [] [] = true
same_bytes [] (b ∷ bs) = false
same_bytes (a ∷ aa) [] = false
same_bytes (a ∷ aa) (b ∷ bs) = (a == b) && same_bytes aa bs

-- Two numbers are one key where the hashes are equal and strcmp, which friendid_compare calls on the
-- bytes, finds no difference; numbers whose bytes have no zero, where it reads on, are not meant.
unfoldable pub same_number : ℕ → ℕ → Bool
same_number n m =
    (bytes_hash (number_bytes n) 0 == bytes_hash (number_bytes m) 0)
    && same_bytes (c_string (number_bytes n)) (c_string (number_bytes m))

pub same_bytes_refl : (bs : List ℕ) → same_bytes bs bs ≡ true
same_bytes_refl [] = refl
same_bytes_refl (b ∷ bs) = rw (==_of_eq b b refl) (same_bytes_refl bs)

pub same_number_refl : (n : ℕ) → same_number n n ≡ true
unfolding same_number
same_number_refl n =
    rw (==_of_eq (bytes_hash (number_bytes n) 0) (bytes_hash (number_bytes n) 0) refl)
      (same_bytes_refl (c_string (number_bytes n)))

unfoldable pub friends_get : List FriendInfo → ℕ → Option FriendInfo
friends_get fs n = get (λ fi. same_number fi.friend_number n) fs

unfoldable pub friends_exist : List FriendInfo → ℕ → Bool
friends_exist fs n = elim (friends_get fs n) [ none ↦ false | some fi ↦ true ]

unfoldable pub friends_put : List FriendInfo → FriendInfo → List FriendInfo
friends_put fs fi = put (λ x. same_number x.friend_number fi.friend_number) fs fi

unfoldable pub friends_remove : List FriendInfo → ℕ → List FriendInfo
friends_remove fs n = remove (λ fi. same_number fi.friend_number n) fs

unfoldable pub transacted_callbacks_get : List TransactedCallback → ℕ → Option TransactedCallback
transacted_callbacks_get cs tid = get (λ c. c.tid == tid) cs

unfoldable pub transacted_callbacks_put :
    List TransactedCallback → TransactedCallback → List TransactedCallback
transacted_callbacks_put cs c = put (λ x. x.tid == c.tid) cs c

unfoldable pub transacted_callbacks_remove : List TransactedCallback → ℕ → List TransactedCallback
transacted_callbacks_remove cs tid = remove (λ c. c.tid == tid) cs

-- `sprintf(key, "ir_%s", userid)`
abbrev pub invite_key : List ℕ → List ℕ
invite_key userid = 105 ∷ 114 ∷ 95 ∷ userid

unfoldable pub history_put_invite : List HistoryItem → List ℕ → ℕ → List HistoryItem
history_put_invite hs userid t =
    put (λ x. same_bytes x.key (invite_key userid)) hs (record { key = invite_key userid; tid = t })

abbrev item_tid : Option HistoryItem → ℕ
item_tid none = 0
item_tid (some item) = item.tid

unfoldable pub history_get_invite : List HistoryItem → List ℕ → ℕ
history_get_invite hs userid = item_tid (get (λ x. same_bytes x.key (invite_key userid)) hs)

unfoldable pub history_remove_invite : List HistoryItem → List ℕ → List HistoryItem
history_remove_invite hs userid = remove (λ x. same_bytes x.key (invite_key userid)) hs

pub same_bytes-eq : (xs ys : List ℕ) → same_bytes xs ys ≡ true → xs ≡ ys
same_bytes-eq [] [] e = refl
same_bytes-eq [] (y ∷ ys) e = absurd (true≢false (sym e))
same_bytes-eq (x ∷ xs) [] e = absurd (true≢false (sym e))
same_bytes-eq (x ∷ xs) (y ∷ ys) e = elim (Bool-cases (x == y)) [
  | inl same ↦
      let rest : same_bytes xs ys ≡ true = sym (ap (λ b. b && same_bytes xs ys) same) ∙ e in
      cc ((==_iff x y).0 same, same_bytes-eq xs ys rest)
  | inr other ↦ absurd (true≢false (sym e ∙ ap (λ b. b && same_bytes xs ys) other))
]

and_left : (b c : Bool) → (b && c) ≡ true → (b ≡ true) × (c ≡ true)
and_left true c e = (refl, e)
and_left false c e = absurd (true≢false (sym e))

-- Two numbers that are one key are the same key as any other.
pub same_number-cong : (x n m : ℕ) → same_number n m ≡ true → same_number x n ≡ same_number x m
unfolding same_number
same_number-cong x n m e =
    let (h, b) =
      and_left (bytes_hash (number_bytes n) 0 == bytes_hash (number_bytes m) 0)
        (same_bytes (c_string (number_bytes n)) (c_string (number_bytes m))) e in
    let hash = (==_iff (bytes_hash (number_bytes n) 0) (bytes_hash (number_bytes m) 0)).0 h in
    let bytes = same_bytes-eq (c_string (number_bytes n)) (c_string (number_bytes m)) b in
    ap
      (λ k.
        (bytes_hash (number_bytes x) 0 == k)
        && same_bytes (c_string (number_bytes x)) (c_string (number_bytes n)))
      hash
    ∙ ap
        (λ k.
          (bytes_hash (number_bytes x) 0 == bytes_hash (number_bytes m) 0)
          && same_bytes (c_string (number_bytes x)) k)
        bytes

get-same : {A : Type 0} (p q : A → Bool) (xs : List A) → ((x : A) → p x ≡ q x) → get p xs ≡ get q xs
get-same p q [] h = refl
get-same p q (x ∷ xs) h = rw (h x) (ap (λ t. if q x then some x else t) (get-same p q xs h))

pub friends_get-put :
    (fs : List FriendInfo) (fi : FriendInfo) (n : ℕ)
    → same_number fi.friend_number n ≡ true
    → friends_get (friends_put fs fi) n ≡ some fi
unfolding friends_get friends_put
friends_get-put fs fi n same =
    get-same (λ x. same_number x.friend_number n)
      (λ x. same_number x.friend_number fi.friend_number)
      (put (λ x. same_number x.friend_number fi.friend_number) fs fi)
      (λ x. sym (same_number-cong x.friend_number fi.friend_number n same))
    ∙ get-put (λ x. same_number x.friend_number fi.friend_number) fs fi
        (same_number_refl fi.friend_number)

-- what friends_get finds has the number
pub same_of_get :
    (fs : List FriendInfo) (n : ℕ) {fi : FriendInfo}
    → friends_get fs n ≡ some fi
    → same_number fi.friend_number n ≡ true
unfolding friends_get
same_of_get [] n e = cc
same_of_get (x ∷ xs) n {fi} e = elim (Bool-cases (same_number x.friend_number n)) [
  | inl hit ↦
      let q : x ≡ fi = some-injective _ _ (
        sym (ap (λ b. if b then some x else get (λ y. same_number y.friend_number n) xs) hit)
        ∙ e) in
      sym (ap (λ y. same_number y.friend_number n) q) ∙ hit
  | inr miss ↦
      same_of_get xs n
        (sym (ap (λ b. if b then some x else get (λ y. same_number y.friend_number n) xs) miss) ∙ e)
]

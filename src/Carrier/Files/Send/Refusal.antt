-- ===== src/Carrier/Files/Send/Refusal.antt =====
-- IOEX_send_file_… of carrier/IOEX_carrier.c: when every call refuses, by what the id, the carrier and
-- the DHT are.
use my_test_module.Prelude.{
  ℕ, ◌≡◌, ◌≢◌, refl, sym, ap, ◌∙◌, ◌⊎◌, true, false, List, none, some, inl, inr, length, ◌==◌,
  Bool-cases, Option-cases, ==_of_eq, ==_iff, arith,
}
use mathlib.Core.Option.{none-ne-some, some-injective}
use mathlib.Core.Path.{subst}
use my_test_module.Prelude.Returns.{Code, value, fail}
use my_test_module.Carrier.Files.{Carrier, Env, invalid_args, not_ready, not_exist}
use my_test_module.Carrier.Files.Send.{
  refuse, is_key, get_friend_number, checked, accept, send_file_request, send_file_seek,
  send_file_accept, send_file_reject, send_file_pause, send_file_resume, send_file_cancel,
}

module _ (env : Env) (w : Carrier) (friendid : List ℕ) where
  -- The id decodes to this key in an array of so many bytes.
  abbrev pub Decodes : ℕ → List ℕ → Type 0
  Decodes size key = (env.base58_decode friendid size ≡ some key) × (length key ≡ 32)

  -- Whatever the id decodes to is no key.
  abbrev pub NoKey : ℕ → Type 0
  NoKey size = (key : List ℕ) → env.base58_decode friendid size ≡ some key → length key ≢ 32

  -- The id is a key in the 64 bytes of is_valid_key, and in the 32 of get_friend_number one for which
  -- the DHT has the number; the carrier is ready.
  pub record IsKnown (f : ℕ) : Type 0 where
    pub long_key : List ℕ
    pub valid : Decodes 64 long_key
    pub ready : w.is_ready ≡ true
    pub key : List ℕ
    pub decoded : Decodes 32 key
    pub number : env.dht_get_friend_number key ≡ some f

  -- why a call refuses, and with which error
  pub data Refusal : ℕ → Type 0 where
    not_a_key : NoKey 64 → Refusal invalid_args
    still_starting : (key : List ℕ) → Decodes 64 key → w.is_ready ≡ false → Refusal not_ready
    not_decoded :
        (key : List ℕ) → Decodes 64 key → w.is_ready ≡ true → NoKey 32 → Refusal invalid_args
    no_friend :
        (long_key key : List ℕ)
        → Decodes 64 long_key
        → w.is_ready ≡ true
        → Decodes 32 key
        → env.dht_get_friend_number key ≡ none
        → Refusal not_exist

  decode_cases :
      (size : ℕ)
      → ((key : List ℕ) × Decodes size key)
        ⊎ (NoKey size × (is_key (env.base58_decode friendid size) ≡ false))
  decode_cases size = elim (Option-cases (env.base58_decode friendid size)) [
    | inl none_at ↦ inr ((λ key e. absurd (none-ne-some key (sym none_at ∙ e))), ap is_key none_at)
    | inr (key, at) ↦ elim (Bool-cases (length key == 32)) [
      | inl e ↦ inl (key, (at, (==_iff (length key) 32).0 e))
      | inr e ↦
          let wrong : length key ≢ 32 = ground (arith, e) in
          inr (
            (λ k at_k. λ len. wrong (ap length (some-injective _ _ (sym at ∙ at_k)) ∙ len)),
            ap is_key at ∙ e,
          )
    ]
  ]

  is_key-Decodes :
      (size : ℕ) (key : List ℕ) → Decodes size key → is_key (env.base58_decode friendid size) ≡ true
  is_key-Decodes size key (at, len) = ap is_key at ∙ ==_of_eq (length key) 32 len

  -- what the checks answer, and why
  abbrev Answered : Code → Type 0
  Answered rc = ((f : ℕ) × (IsKnown f × (rc ≡ value f))) ⊎ ((e : ℕ) × (Refusal e × (rc ≡ fail e)))

  number_lem :
      (long_key : List ℕ)
      → Decodes 64 long_key
      → w.is_ready ≡ true
      → Answered (get_friend_number env friendid)
  unfolding get_friend_number
  number_lem long_key valid ready = elim (decode_cases 32) [
    | inr (wrong, e) ↦ inr (invalid_args, (not_decoded long_key valid ready wrong, rw e refl))
    | inl (key, decoded) ↦ elim (Option-cases (env.dht_get_friend_number key)) [
      | inl none_at ↦ inr (
        not_exist,
        (
          no_friend long_key key valid ready decoded none_at,
          rw (is_key-Decodes 32 key decoded, decoded.0, none_at) refl,
        ),
      )
      | inr (f, at) ↦ inl (
        f,
        (
          record {
            long_key = long_key;
            valid = valid;
            ready = ready;
            key = key;
            decoded = decoded;
            number = at;
          },
          rw (is_key-Decodes 32 key decoded, decoded.0, at) refl,
        ),
      )
    ]
  ]

  checked_lem : Answered (checked env w friendid)
  unfolding checked
  checked_lem = elim (decode_cases 64) [
    | inr (wrong, e) ↦ inr (invalid_args, (not_a_key wrong, rw e refl))
    | inl (key, valid) ↦ elim (Bool-cases w.is_ready) [
      | inl ready ↦
          let run : checked env w friendid ≡ get_friend_number env friendid =
            rw (is_key-Decodes 64 key valid, ready) refl in
          subst Answered (sym run) (number_lem key valid ready)
      | inr starting ↦ inr (
        not_ready,
        (still_starting key valid starting, rw (is_key-Decodes 64 key valid, starting) refl),
      )
    ]
  ]

  module _ (fileindex filename filepath fullpath position : List ℕ) where
    -- Every call that sends for a file returns -1 with this error, and does nothing else.
    abbrev pub AllRefuse : ℕ → Type 0
    AllRefuse e =
        let refused = refuse w (fail e) in
        (send_file_request env w (some friendid) (some fullpath) ≡ refused)
        × (send_file_seek env w (some friendid) (some fileindex) (some position) ≡ refused)
        × (send_file_accept env w (some friendid) (some fileindex) (some filename) (some filepath)
            ≡ refused)
        × (send_file_reject env w (some friendid) (some fileindex) ≡ refused)
        × (send_file_pause env w (some friendid) (some fileindex) ≡ refused)
        × (send_file_resume env w (some friendid) (some fileindex) ≡ refused)
        × (send_file_cancel env w (some friendid) (some fileindex) ≡ refused)

    all_refuse : (e : ℕ) → checked env w friendid ≡ fail e → AllRefuse e
    unfolding send_file_request send_file_seek send_file_accept accept send_file_reject
        send_file_pause send_file_resume send_file_cancel
    all_refuse e h =
        rw
          (
            h, send_file_request, send_file_seek, send_file_accept, accept, send_file_reject,
            send_file_pause, send_file_resume, send_file_cancel,
          )
          (refl, refl, refl, refl, refl, refl, refl)

    -- For every id and carrier, with no argument NULL: either the id decodes to a key of 32 bytes
    -- in both of the arrays that it is decoded into, the carrier is ready, and the DHT has a number
    -- for the key, which is what the checks give; or all seven calls that send for a file return
    -- -1, store the error and do nothing else. The error is that of invalid arguments where the id
    -- is no key in the first array, or, when the carrier is ready, in the second; that of a carrier
    -- which is not ready where the id is a key; and that of what does not exist where the DHT has
    -- no number for the key of a ready carrier's friend.
    pub checks_decide :
        ((f : ℕ) × (IsKnown f × (checked env w friendid ≡ value f)))
        ⊎ ((e : ℕ) × (Refusal e × AllRefuse e))
    checks_decide = elim checked_lem [
      | inl known ↦ inl known
      | inr (e, (why, h)) ↦ inr (e, (why, all_refuse e h))
    ]

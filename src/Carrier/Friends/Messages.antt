-- ===== src/Carrier/Friends/Messages.antt =====
-- The functions of carrier/IOEX_carrier.c that send messages, invitations and the answers to them.
use my_test_module.Prelude.{
  ℕ, Bool, true, false, not, ◌&&◌, ◌||◌, List, [], ◌∷◌, Option, none, some, length, ltb, ◌==◌,
  if◌then◌else◌,
}
use my_test_module.Prelude.Returns.{Code, value, fail}
use my_test_module.Carrier.Files.{invalid_args, out_of_memory, not_ready, not_exist}
use my_test_module.Carrier.Files.Send.{is_valid_key, get_friend_number}
use my_test_module.Carrier.Friends.{
  Carrier, Env, Cp, message, invite_request, invite_response, dht_message, act, refuse,
  no_matched_request,
}
use my_test_module.Carrier.Friends.Tables.{
  friends_exist, same_bytes, transacted_callbacks_put, history_get_invite, history_remove_invite,
}
use my_test_module.Carrier.Friends.Manage.{max_user_name_len}

abbrev pub colon : ℕ
colon = 58

abbrev before_colon : ℕ → Bool → List ℕ × Option (List ℕ) → List ℕ → List ℕ × Option (List ℕ)
before_colon b true rest bs = ([], some bs)
before_colon b false (uid, ext) bs = ((b ∷ uid), ext)

-- `userid:extension`, split at the first colon
unfoldable pub parse_address : List ℕ → List ℕ × Option (List ℕ)
parse_address [] = ([], none)
parse_address (b ∷ bs) = before_colon b (b == colon) (parse_address bs) bs

abbrev is_long : Option (List ℕ) → Bool
is_long none = false
is_long (some ext) = ltb max_user_name_len (length ext)

-- the value of `time(NULL) + rand()` that is taken: the first that is not 0
unfoldable pub generate_tid : List ℕ → Option ℕ
generate_tid [] = none
generate_tid (d ∷ ds) = let rest = generate_tid ds in if d == 0 then rest else some d

-- what a status of 0 and another take along
abbrev pub response : Option (List ℕ) → ℕ → ℕ → Option (List ℕ) → List ℕ → Cp
response ext tid status reason content =
    if status == 0
    then invite_response ext tid status none content
    else invite_response ext tid status reason []

abbrev pub is_none : Option (List ℕ) → Bool
is_none none = true
is_none (some s) = false

-- no address, no reason for a refusal, or nothing to send for an acceptance
abbrev pub is_incomplete : List ℕ → ℕ → Option (List ℕ) → List ℕ → Bool
is_incomplete to status reason content =
    length to == 0 || (if status == 0 then length content == 0 else is_none reason)

module _ (env : Env) where
  abbrev known : Carrier → ℕ → Code → Code
  known w unknown (fail e) = fail unknown
  known w unknown (value n) = if friends_exist w.friends n then value n else fail not_exist

  -- The tests of an address up to the friend's number. A function may refuse the carrier's own id,
  -- and has its error for an id that is no friend's.
  unfoldable pub recipient : Bool → ℕ → Carrier → List ℕ → Code
  recipient refuse_self unknown w to =
      let (userid, ext) = parse_address to in
      if not (is_valid_key env.ids userid)
        || (is_long ext || (refuse_self && same_bytes userid w.me_userid))
      then fail invalid_args
      else if not w.is_ready
      then fail not_ready
      else known w unknown (get_friend_number env.ids userid)

  abbrev pub encoded : Cp → Option (List ℕ)
  encoded cp = if env.creates then env.encode cp else none

  abbrev pub sent : Carrier → Code → Carrier × Code
  sent w (fail e) = (refuse w (fail e), fail 1)
  sent w (value n) = (w, value 0)

  -- the packet goes out to the friend
  abbrev pub send : Carrier → ℕ → Option (List ℕ) → Carrier × Code
  send w n none = (refuse w (fail out_of_memory), fail 1)
  send w n (some bytes) = sent (act w (dht_message n bytes)) (env.dht_friend_message n bytes)

  abbrev pub max_app_message_len : ℕ
  max_app_message_len = 1024

  unfoldable pub send_friend_message : Carrier → List ℕ → List ℕ → Carrier × Code
  send_friend_message w to msg =
      if length msg == 0 || ltb max_app_message_len (length msg)
      then (refuse w (fail invalid_args), fail 1)
      else elim (recipient true not_exist w to) [
        | fail e ↦ (refuse w (fail e), fail 1)
        | value n ↦ send w n (encoded (message (parse_address to).1 msg))
      ]

  -- the callback is stored before the packet goes out, whatever comes of it
  abbrev pub invite : Carrier → ℕ → ℕ → ℕ → Option (List ℕ) → Carrier × Code
  invite w n tid callback none = (refuse w (fail out_of_memory), fail 1)
  invite w n tid callback (some bytes) =
      if not env.allocates
      then (refuse w (fail out_of_memory), fail 1)
      else send
          (record w {
            tcallbacks =
                transacted_callbacks_put w.tcallbacks (record { tid = tid; callback = callback });
          })
          n (some bytes)

  abbrev pub with_tid : Carrier → ℕ → List ℕ → List ℕ → ℕ → Option ℕ → Option (Carrier × Code)
  with_tid w n to content callback none = none
  with_tid w n to content callback (some tid) =
      some (invite w n tid callback (encoded (invite_request (parse_address to).1 tid content)))

  -- There is no result where no value that is drawn is a transaction id.
  unfoldable pub invite_friend : Carrier → List ℕ → List ℕ → ℕ → Option (Carrier × Code)
  invite_friend w to content callback =
      if length content == 0
      then some (refuse w (fail invalid_args), fail 1)
      else elim (recipient false not_exist w to) [
        | fail e ↦ some (refuse w (fail e), fail 1)
        | value n ↦
            if not env.creates
            then some (refuse w (fail out_of_memory), fail 1)
            else with_tid w n to content callback (generate_tid env.draws)
      ]

  abbrev pub forget : List ℕ → Carrier × Code → Carrier × Code
  forget to (w, fail e) = (w, fail e)
  forget to (w, value n) = (record w { thistory = history_remove_invite w.thistory to }, value n)

  abbrev pub answer : Carrier → List ℕ → ℕ → Option (List ℕ) → List ℕ → ℕ → ℕ → Carrier × Code
  answer w to status reason content n tid =
      if tid == 0
      then (refuse w (fail no_matched_request), fail 1)
      else forget to (send w n (encoded (response (parse_address to).1 tid status reason content)))

  unfoldable pub reply_friend_invite :
      Carrier → List ℕ → ℕ → Option (List ℕ) → List ℕ → Carrier × Code
  reply_friend_invite w to status reason content =
      if is_incomplete to status reason content
      then (refuse w (fail invalid_args), fail 1)
      else elim (recipient false invalid_args w to) [
        | fail e ↦ (refuse w (fail e), fail 1)
        | value n ↦ answer w to status reason content n (history_get_invite w.thistory to)
      ]

-- ===== src/Tests/Friends.antt =====
-- carrier/IOEX_carrier.c: two carriers, with the ids "A" and "B" and the numbers 7 and 8 for each
-- other.
use my_test_module.Prelude.{
  ℕ, ◌≡◌, refl, true, false, List, [], ◌∷◌, Option, none, some, replicate, arith, zero, suc,
}
use mathlib.Core.Option.{some-injective, none-ne-some}
use mathlib.Core.Path.{subst}
use my_test_module.Prelude.Returns.{value}
use my_test_module.Carrier.CString
use my_test_module.Carrier.Files
use my_test_module.Carrier.Friends
use my_test_module.Carrier.Friends.{
  FriendInfo, Carrier, Env, Cp, friend_request, message, invite_request, invite_response, other,
  FriendEvent, event_added, event_removed, friend_connection, friend_presence,
}
use my_test_module.Carrier.Friends.Tables.{friends_get}
use my_test_module.Carrier.Friends.Manage.{new_friend, accept_friend, remove_friend}
use my_test_module.Carrier.Friends.Messages.{invite_friend, reply_friend_invite}
use my_test_module.Carrier.Friends.Invitation.{IsInviter, IsInvited, IsAnswered, invitation}
use my_test_module.Carrier.Friends.Events.{IsAccepted, accepted, removed_again, accept-remove}
use my_test_module.Carrier.Friends.Notify.{notify_friend_connection_cb}
use my_test_module.Carrier.Friends.Status.{connection-once}

abbrev encode : Cp → Option (List ℕ)
encode (friend_request name descr hello) = none
encode (message ext msg) = none
encode (invite_request none tid content) = some (0 ∷ tid ∷ content)
encode (invite_request (some ext) tid content) = none
encode (invite_response none tid status none content) = some (1 ∷ tid ∷ status ∷ content)
encode (invite_response none tid status (some reason) content) = none
encode (invite_response (some ext) tid status reason content) = none
encode other = none

abbrev decode : List ℕ → Option Cp
decode [] = none
decode (kind ∷ []) = none
decode (zero ∷ tid ∷ content) = some (invite_request none tid content)
decode (suc k ∷ tid ∷ []) = none
decode (suc k ∷ tid ∷ status ∷ content) = some (invite_response none tid status none content)

decode-encode : (c : Cp) (b : List ℕ) → encode c ≡ some b → decode b ≡ some c
decode-encode (friend_request name descr hello) b e = absurd (none-ne-some b e)
decode-encode (message ext msg) b e = absurd (none-ne-some b e)
decode-encode (invite_request none tid content) b e =
    subst (λ x. decode x ≡ some (invite_request none tid content)) (some-injective _ _ e) refl
decode-encode (invite_request (some ext) tid content) b e = absurd (none-ne-some b e)
decode-encode (invite_response none tid status none content) b e =
    subst (λ x. decode x ≡ some (invite_response none tid status none content))
      (some-injective _ _ e) refl
decode-encode (invite_response none tid status (some reason) content) b e =
    absurd (none-ne-some b e)
decode-encode (invite_response (some ext) tid status reason content) b e = absurd (none-ne-some b e)
decode-encode other b e = absurd (none-ne-some b e)

-- Every id is a key, which the DHT knows by this number, if there is one.
abbrev ids : Option ℕ → Files.Env
ids n = record {
  memory = none;
  friends_get = λ k. none;
  base58_decode = λ s k. some (replicate 32 1);
  dht_get_friend_number = λ key. n;
  dht = λ a. value 0;
  file_number = λ k s. 0;
  readable = λ s. none;
  writable = λ s. false;
  reports_error = false;
}

abbrev knows : Option ℕ → Env
knows n = record {
  ids = ids n;
  base58_encode = λ key. 65 ∷ [];
  creates = true;
  allocates = true;
  encode = encode;
  decode = decode;
  dht_friend_message = λ k bytes. value 0;
  dht_friend_add = λ key bytes. value 7;
  dht_friend_add_norequest = λ key. value 7;
  draws = 0 ∷ 5 ∷ [];
}

abbrev carrier : List ℕ → List FriendInfo → Carrier
carrier id fs = record {
  is_ready = true;
  connected = true;
  me_userid = id;
  me_name = [];
  me_description = [];
  base58_addr = [];
  friends = fs;
  tcallbacks = [];
  thistory = [];
  friend_events = [];
  error = value 0;
  trace = [];
}

abbrev a : FriendInfo
a = new_friend 7 (65 ∷ [])

abbrev b : FriendInfo
b = new_friend 8 (66 ∷ [])

abbrev wa : Carrier
wa = carrier (65 ∷ []) (b ∷ [])

abbrev wb : Carrier
wb = carrier (66 ∷ []) (a ∷ [])

inviter :
    IsInviter
      (knows (some 8))
      (knows (some 7))
      wa
      wb
      (66 ∷ [])
      (9 ∷ [])
      3
      8
      7
      5
      a
      b
      (0 ∷ 5 ∷ 9 ∷ [])
      (1 ∷ 5 ∷ 0 ∷ 4 ∷ [])
      0
      none
      (4 ∷ [])
unfolding Friends.Messages.recipient Friends.Messages.parse_address Friends.Messages.generate_tid
    Friends.Tables.friends_exist Friends.Tables.friends_get Friends.Tables.same_number
    Friends.Tables.transacted_callbacks_get Files.Send.get_friend_number CString.c_string
inviter = record {
  full = λ e. omega arith;
  known = refl;
  creates = refl;
  allocates = refl;
  drawn = refl;
  plain = refl;
  encoded = refl;
  delivered = refl;
  friend = refl;
  new = refl;
}

invited :
    IsInvited
      (knows (some 8))
      (knows (some 7))
      wa
      wb
      (66 ∷ [])
      (9 ∷ [])
      3
      8
      7
      5
      a
      b
      (0 ∷ 5 ∷ 9 ∷ [])
      (1 ∷ 5 ∷ 0 ∷ 4 ∷ [])
      0
      none
      (4 ∷ [])
unfolding Friends.Messages.recipient Friends.Messages.parse_address Friends.Tables.friends_exist
    Friends.Tables.friends_get Friends.Tables.same_number Files.Send.get_friend_number
    CString.c_string
invited = record {
  friend = refl;
  complete = refl;
  known = refl;
  plain = refl;
  new = refl;
  creates = refl;
  encoded = refl;
  delivered = refl;
}

invitation_example :
    IsAnswered
      (knows (some 8))
      (knows (some 7))
      wa
      wb
      (66 ∷ [])
      (9 ∷ [])
      3
      8
      7
      5
      a
      b
      (0 ∷ 5 ∷ 9 ∷ [])
      (1 ∷ 5 ∷ 0 ∷ 4 ∷ [])
      0
      none
      (4 ∷ [])
invitation_example =
    invitation (knows (some 8)) (knows (some 7)) wa wb (66 ∷ []) (9 ∷ []) 3 8 7 5 a b
      (0 ∷ 5 ∷ 9 ∷ []) (1 ∷ 5 ∷ 0 ∷ 4 ∷ []) 0 none (4 ∷ []) inviter invited (λ e. omega arith)
      decode-encode decode-encode

acceptable : IsAccepted (knows none) (knows (some 7)) (carrier (66 ∷ []) []) (65 ∷ []) 7
unfolding Files.Send.get_friend_number Friends.Tables.friends_get
acceptable = record {
  key = refl;
  key_later = refl;
  not_me = refl;
  is_ready = refl;
  unknown = refl;
  known = refl;
  allocates = refl;
  allocates_later = refl;
  added_as = refl;
  new = refl;
}

accept-remove_example :
    (accept_friend (knows none) (carrier (66 ∷ []) []) (65 ∷ [])
      ≡ (accepted (knows none) (knows (some 7)) (carrier (66 ∷ []) []) (65 ∷ []) 7, value 0))
    × ((friends_get
            (accepted (knows none) (knows (some 7)) (carrier (66 ∷ []) []) (65 ∷ []) 7).friends
            7
          ≡ some a)
        × ((remove_friend
                (knows (some 7))
                (accepted (knows none) (knows (some 7)) (carrier (66 ∷ []) []) (65 ∷ []) 7)
                (65 ∷ [])
              ≡ (
                removed_again (knows none) (knows (some 7)) (carrier (66 ∷ []) []) (65 ∷ []) 7,
                value 0,
              ))
            × ((removed_again
                  (knows none)
                  (knows (some 7))
                  (carrier (66 ∷ []) [])
                  (65 ∷ [])
                  7).friend_events
                ≡ event_added a ∷ event_removed a ∷ [])))
accept-remove_example =
    accept-remove (knows none) (knows (some 7)) (carrier (66 ∷ []) []) (65 ∷ []) 7 acceptable

b_known : friends_get wa.friends 8 ≡ some b
unfolding Friends.Tables.friends_get Friends.Tables.same_number CString.c_string
b_known = refl

connection-once_example :
    ((notify_friend_connection_cb wa 8 true).trace ≡ friend_connection (66 ∷ []) true ∷ [])
    × ((friends_get (notify_friend_connection_cb wa 8 true).friends 8
          ≡ some (record b { connected = true }))
        × (notify_friend_connection_cb (notify_friend_connection_cb wa 8 true) 8 true
            ≡ notify_friend_connection_cb wa 8 true))
connection-once_example = connection-once wa 8 true b b_known refl

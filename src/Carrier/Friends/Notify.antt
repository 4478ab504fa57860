-- ===== src/Carrier/Friends/Notify.antt =====
-- What carrier/IOEX_carrier.c does when the DHT reports on the connection and on friends.
use my_test_module.Prelude.{
  ℕ, Bool, true, false, not, ◌&&◌, ◌||◌, List, [], ◌∷◌, Option, none, some, ltb, ◌==◌,
  if◌then◌else◌, ℤ, pos, negsuc,
}
use my_test_module.Carrier.Friends.{
  FriendInfo, Carrier, Env, Cp, friend_request, ready, connection_status, friend_list,
  friend_connection, friend_presence, friend_asks, act,
}
use my_test_module.Carrier.Friends.Tables.{friends_get, friends_put}

-- the loop of notify_friends
unfoldable pub notify_each : List FriendInfo → Carrier → Carrier
notify_each [] w = w
notify_each (fi ∷ fis) w = notify_each fis (act w (friend_list (some fi)))

unfoldable pub notify_friends : Carrier → Carrier
notify_friends w = act (notify_each w.friends w) (friend_list none)

unfoldable pub notify_connection_cb : Carrier → Bool → Carrier
notify_connection_cb w connected =
    let w1 = if not w.is_ready && connected then act (record w { is_ready = true }) ready else w in
    act (record w1 { connected = connected }) (connection_status connected)

abbrev pub same_status : Bool → Bool → Bool
same_status true b = b
same_status false b = not b

-- A friend is changed through the pointer that friends_get gives, so it stays where it is.
unfoldable pub connection_of : Carrier → Bool → Option FriendInfo → Carrier
connection_of w connected none = w
connection_of w connected (some fi) =
    if same_status connected fi.connected
    then w
    else act (record w { friends = friends_put w.friends (record fi { connected = connected }) })
        (friend_connection fi.userid connected)

unfoldable pub notify_friend_connection_cb : Carrier → ℕ → Bool → Carrier
notify_friend_connection_cb w friend_number connected =
    connection_of w connected (friends_get w.friends friend_number)

-- IOEXPresenceStatus_Busy
abbrev pub busy : ℕ
busy = 2

unfoldable pub presence_of : Carrier → ℤ → Option FriendInfo → Carrier
presence_of w status none = w
presence_of w (negsuc k) (some fi) = w
presence_of w (pos status) (some fi) =
    if ltb busy status || status == fi.presence
    then w
    else act (record w { friends = friends_put w.friends (record fi { presence = status }) })
        (friend_presence fi.userid status)

unfoldable pub notify_friend_status_cb : Carrier → ℕ → ℤ → Carrier
notify_friend_status_cb w friend_number status =
    presence_of w status (friends_get w.friends friend_number)

-- NULL for no string
abbrev pub or_empty : Option (List ℕ) → List ℕ
or_empty none = []
or_empty (some s) = s

module _ (env : Env) where
  -- the request of one who is no friend
  unfoldable pub request_of : Carrier → List ℕ → Option Cp → Carrier
  request_of w public_key none = w
  request_of w public_key (some (friend_request name descr hello)) =
      act w (
        friend_asks (env.base58_encode public_key) (or_empty name) (or_empty descr)
          (or_empty hello))
  request_of w public_key (some cp) = w

  unfoldable pub notify_friend_request_cb : Carrier → List ℕ → List ℕ → Carrier
  notify_friend_request_cb w public_key greeting = elim (env.ids.dht_get_friend_number public_key) [
    | some n ↦ w
    | none ↦ request_of w public_key (env.decode greeting)
  ]

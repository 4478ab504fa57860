-- ===== src/Carrier/Friends/Manage.antt =====
-- The functions of carrier/IOEX_carrier.c that manage friends. A string argument is not NULL and has
-- no 0; the other NULL tests only refuse the call.
use my_test_module.Prelude.{
  ℕ, Bool, true, false, not, ◌&&◌, ◌||◌, List, [], ◌∷◌, ◌++◌, Option, none, some, length, take,
  drop, ltb, ◌==◌, if◌then◌else◌,
}
use Prim.Native.Nat.{bit_xor}
use my_test_module.Prelude.Returns.{Code, value, fail}
use my_test_module.Carrier.Files.{invalid_args, out_of_memory, not_ready, not_exist}
use my_test_module.Carrier.Files.Send.{is_valid_key, get_friend_number}
use my_test_module.Carrier.Friends.{
  FriendInfo, Carrier, Env, friend_request, FriendEvent, event_added, event_removed, stored,
  dht_add, dht_add_norequest, dht_delete, act, refuse, already_exist,
}
use my_test_module.Carrier.Friends.Tables.{
  friends_get, friends_exist, friends_put, friends_remove, same_bytes,
}

abbrev pub max_user_name_len : ℕ
max_user_name_len = 63

-- the two bytes of address_checksum: each takes every other byte
unfoldable pub address_checksum : List ℕ → ℕ → ℕ → ℕ × ℕ
address_checksum [] c d = (c, d)
address_checksum (b ∷ bs) c d = address_checksum bs d (bit_xor c b)

abbrev pub address_size : ℕ
address_size = 38

-- after an even number of bytes the pair stands in order; the checksum is the last two bytes
unfoldable pub is_address : Option (List ℕ) → Bool
is_address none = false
is_address (some addr) =
    length addr == address_size
    && (let (c, d) = address_checksum (take 36 addr) 0 0 in same_bytes (c ∷ d ∷ []) (drop 36 addr))

-- store_persistence_data and the event at the end of the queue, if there is memory for it
abbrev pub notify_event : Bool → Carrier → FriendEvent → Carrier
notify_event allocates w event =
    let w1 = act w stored in
    if allocates then record w1 { friend_events = w1.friend_events ++ (event ∷ []) } else w1

-- a friend as IOEX_add_friend and IOEX_accept_friend make it
abbrev pub new_friend : ℕ → List ℕ → FriendInfo
new_friend n id = record {
  friend_number = n;
  userid = id;
  label = [];
  connected = false;
  presence = 0;
}

abbrev pub decoded : Option (List ℕ) → List ℕ
decoded none = []
decoded (some bytes) = bytes

abbrev pub is_value : Code → Bool
is_value (value n) = true
is_value (fail e) = false

module _ (env : Env) where
  unfoldable pub is_valid_address : List ℕ → Bool
  is_valid_address address = is_address (env.ids.base58_decode address address_size)

  unfoldable pub notify_friend_added : Carrier → FriendInfo → Carrier
  notify_friend_added w fi = notify_event env.allocates w (event_added fi)

  unfoldable pub notify_friend_removed : Carrier → FriendInfo → Carrier
  notify_friend_removed w fi = notify_event env.allocates w (event_removed fi)

  -- the answer of the DHT to a new friend of this id
  unfoldable pub friend_made : Carrier → List ℕ → Code → Carrier × Code
  friend_made w id (fail e) = (refuse w (fail e), fail 1)
  friend_made w id (value n) =
      let fi = new_friend n id in
      (notify_friend_added (record w { friends = friends_put w.friends fi }) fi, value 0)

  abbrev pub request_packet : Carrier → List ℕ → Option (List ℕ)
  request_packet w hello =
      if env.creates
      then env.encode (friend_request (some w.me_name) (some w.me_description) (some hello))
      else none

  -- the request goes out to a decoded address
  unfoldable pub send_request : Carrier → List ℕ → Option (List ℕ) → Carrier × Code
  send_request w addr none = (refuse w (fail out_of_memory), fail 1)
  send_request w addr (some bytes) =
      friend_made (act w (dht_add addr bytes)) (env.base58_encode (take 32 addr))
        (env.dht_friend_add addr bytes)

  -- whether the DHT knows the key as a friend's
  abbrev pub is_known : List ℕ → Bool
  is_known key = elim (env.ids.dht_get_friend_number key) [ none ↦ false | some n ↦ true ]

  unfoldable pub add_friend : Carrier → List ℕ → List ℕ → Carrier × Code
  add_friend w address hello =
      let addr = decoded (env.ids.base58_decode address address_size) in
      if not (is_valid_address address) || same_bytes address w.base58_addr
      then (refuse w (fail invalid_args), fail 1)
      else if not w.is_ready
      then (refuse w (fail not_ready), fail 1)
      else if is_known (take 32 addr)
      then (refuse w (fail already_exist), fail 1)
      else if not env.allocates
      then (refuse w (fail out_of_memory), fail 1)
      else send_request w addr (request_packet w hello)

  unfoldable pub accept_friend : Carrier → List ℕ → Carrier × Code
  accept_friend w userid =
      let key = decoded (env.ids.base58_decode userid 32) in
      if not (is_valid_key env.ids userid) || same_bytes userid w.me_userid
      then (refuse w (fail invalid_args), fail 1)
      else if not w.is_ready
      then (refuse w (fail not_ready), fail 1)
      else if is_value (get_friend_number env.ids userid)
      then (refuse w (fail already_exist), fail 1)
      else if not env.allocates
      then (refuse w (fail out_of_memory), fail 1)
      else friend_made (act w (dht_add_norequest key)) userid (env.dht_friend_add_norequest key)

  -- behind the search in the table
  unfoldable pub remove_found : Carrier → ℕ → Option FriendInfo → Carrier × Code
  remove_found w n none = (refuse w (fail not_exist), fail 1)
  remove_found w n (some fi) = (
    notify_friend_removed (record (act w (dht_delete n)) { friends = friends_remove w.friends n })
        fi,
    value 0,
  )

  unfoldable pub remove_numbered : Carrier → Code → Carrier × Code
  remove_numbered w (fail e) = (refuse w (fail e), fail 1)
  remove_numbered w (value n) = remove_found w n (friends_get w.friends n)

  unfoldable pub remove_friend : Carrier → List ℕ → Carrier × Code
  remove_friend w friendid =
      if not (is_valid_key env.ids friendid)
      then (refuse w (fail invalid_args), fail 1)
      else if not w.is_ready
      then (refuse w (fail not_ready), fail 1)
      else remove_numbered w (get_friend_number env.ids friendid)

  unfoldable pub is_friend : Carrier → List ℕ → Carrier × Bool
  is_friend w userid = elim (get_friend_number env.ids userid) [
    | fail e ↦ (refuse w (fail e), false)
    | value n ↦ (w, friends_exist w.friends n)
  ]

  abbrev found : Carrier → Option FriendInfo → Carrier × Option FriendInfo
  found w none = (refuse w (fail not_exist), none)
  found w (some fi) = (w, some fi)

  -- The information is the result, `none` for -1.
  unfoldable pub get_friend_info : Carrier → List ℕ → Carrier × Option FriendInfo
  get_friend_info w friendid = elim (get_friend_number env.ids friendid) [
    | fail e ↦ (refuse w (fail e), none)
    | value n ↦ found w (friends_get w.friends n)
  ]

  abbrev labelled : Carrier → List ℕ → Option FriendInfo → Carrier × Code
  labelled w label none = (refuse w (fail not_exist), fail 1)
  labelled w label (some fi) = (
    act (record w { friends = friends_put w.friends (record fi { label = label }) }) stored,
    value 0,
  )

  -- A label that is NULL is empty.
  unfoldable pub set_friend_label : Carrier → List ℕ → Option (List ℕ) → Carrier × Code
  set_friend_label w friendid label =
      let text = decoded label in
      if ltb max_user_name_len (length text)
      then (refuse w (fail invalid_args), fail 1)
      else elim (get_friend_number env.ids friendid) [
        | fail e ↦ (refuse w (fail e), fail 1)
        | value n ↦ labelled w text (friends_get w.friends n)
      ]

-- `callback(&wfi, context)` says whether to go on; the friends it is shown, the last being NULL
unfoldable pub get_friends : (FriendInfo → Bool) → List FriendInfo → List (Option FriendInfo)
get_friends callback [] = none ∷ []
get_friends callback (fi ∷ fis) =
    let rest = get_friends callback fis in if callback fi then some fi ∷ rest else some fi ∷ []

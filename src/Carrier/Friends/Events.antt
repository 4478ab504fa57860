-- ===== src/Carrier/Friends/Events.antt =====
-- The queue of carrier/friend_event.h, which IOEX_run empties, and what the functions on friends put
-- into it.
use my_test_module.Prelude.{
  ℕ, ◌≡◌, refl, true, false, List, [], ◌∷◌, ◌++◌, none, some, if◌then◌else◌,
}
use mathlib.Core.List.{append_assoc}
use my_test_module.Prelude.Returns.{value}
use my_test_module.Carrier.Friends.{
  FriendInfo, Carrier, Env, FriendEvent, event_added, event_removed, friend_added, friend_removed,
  friend_connection, act, dht_add_norequest, dht_delete,
}
use my_test_module.Carrier.Friends.Tables.{
  remove-put, same_bytes, same_number, same_number_refl, friends_get-put, friends_get, friends_put,
  friends_remove,
}
use my_test_module.Carrier.Files.Send.{is_valid_key, get_friend_number}
use my_test_module.Carrier.Friends.Manage.{
  accept_friend, remove_friend, remove_numbered, is_value, decoded, friend_made, new_friend,
  remove_found, notify_friend_added, notify_friend_removed,
}

unfoldable pub do_friend_event : Carrier → FriendEvent → Carrier
do_friend_event w (event_added fi) = act w (friend_added fi)
do_friend_event w (event_removed fi) =
    act (if fi.connected then act w (friend_connection fi.userid false) else w)
      (friend_removed fi.userid)

-- the loop of do_friend_events; the callbacks put nothing into the queue
unfoldable pub do_events : List FriendEvent → Carrier → Carrier
do_events [] w = w
do_events (e ∷ es) w = do_events es (do_friend_event w e)

unfoldable pub do_friend_events : Carrier → Carrier
do_friend_events w = do_events w.friend_events (record w { friend_events = [] })

-- A friend that the DHT has accepted and that the table does not have
new_friend_put :
    (fs : List FriendInfo) (n : ℕ) (id : List ℕ)
    → friends_get fs n ≡ none
    → friends_remove (friends_put fs (new_friend n id)) n ≡ fs
unfolding friends_get friends_put friends_remove
new_friend_put fs n id new =
    remove-put (λ x. same_number x.friend_number n) fs (new_friend n id) (same_number_refl n) new

module _ (ea er : Env) (w : Carrier) (userid : List ℕ) (n : ℕ) where
  -- The id is a key other than the carrier's own, the carrier is ready, the DHT knows the key as a
  -- friend's only after it has been accepted, under a number that the table does not have.
  pub record IsAccepted : Type 0 where
    pub key : is_valid_key ea.ids userid ≡ true
    pub key_later : is_valid_key er.ids userid ≡ true
    pub not_me : same_bytes userid w.me_userid ≡ false
    pub is_ready : w.is_ready ≡ true
    pub unknown : is_value (get_friend_number ea.ids userid) ≡ false
    pub known : get_friend_number er.ids userid ≡ value n
    pub allocates : ea.allocates ≡ true
    pub allocates_later : er.allocates ≡ true
    pub added_as : ea.dht_friend_add_norequest (decoded (ea.ids.base58_decode userid 32)) ≡ value n
    pub new : friends_get w.friends n ≡ none

  abbrev pub accepted : Carrier
  accepted =
      notify_friend_added ea
        (record (act w (dht_add_norequest (decoded (ea.ids.base58_decode userid 32)))) {
          friends = friends_put w.friends (new_friend n userid);
        })
        (new_friend n userid)

  abbrev pub removed_again : Carrier
  removed_again =
      notify_friend_removed er (record (act accepted (dht_delete n)) { friends = w.friends })
        (new_friend n userid)

  -- A friend that a ready carrier accepts, whose key is not its own and whose number is not in its
  -- table, is in the table with that id; when it is removed the table is as before, both calls
  -- return 0, and the two events stand at the end of the queue in this order; both carriers of the
  -- calls must have memory.
  pub accept-remove :
      IsAccepted
      → (accept_friend ea w userid ≡ (accepted, value 0))
        × ((friends_get accepted.friends n ≡ some (new_friend n userid))
            × ((remove_friend er accepted userid ≡ (removed_again, value 0))
                × (removed_again.friend_events
                    ≡ w.friend_events
                      ++ (event_added (new_friend n userid)
                          ∷ event_removed (new_friend n userid)
                          ∷ []))))
  unfolding accept_friend remove_friend friend_made remove_numbered remove_found notify_friend_added
      notify_friend_removed
  accept-remove a =
      let held = friends_get-put w.friends (new_friend n userid) n (same_number_refl n) in
      (
        rw (a.key, a.not_me, a.is_ready, a.unknown, a.allocates, a.added_as) refl,
        (
          rw a.allocates held,
          (
            rw
                (
                  a.allocates,
                  a.key_later,
                  a.is_ready,
                  a.known,
                  held,
                  a.allocates_later,
                  new_friend_put w.friends n userid a.new,
                )
                refl,
            rw (a.allocates, a.allocates_later)
                (append_assoc w.friend_events (event_added (new_friend n userid) ∷ [])
                  (event_removed (new_friend n userid) ∷ [])),
          ),
        ),
      )

-- ===== src/Carrier/Friends/Status.antt =====
-- The reports of the DHT on a friend's connection and presence, in carrier/IOEX_carrier.c.
use my_test_module.Prelude.{
  ℕ, ◌≤◌, ◌≡◌, ◌≢◌, refl, sym, ap, ◌∙◌, Bool, true, false, ◌∷◌, some, ltb_of_le, ==_of_eq, ==_of_ne,
  pos,
}
use my_test_module.Carrier.Friends.{FriendInfo, Carrier, friend_connection, friend_presence, act}
use my_test_module.Carrier.Friends.Tables.{friends_get, friends_put, friends_get-put, same_of_get}
use my_test_module.Carrier.Friends.Notify.{
  same_status, busy, connection_of, presence_of, notify_friend_connection_cb,
  notify_friend_status_cb,
}

same_status_refl : (b : Bool) → same_status b b ≡ true
same_status_refl true = refl
same_status_refl false = refl

-- A report that the connection of a friend in the table has changed tells the application once and
-- is kept in the table; the same report again changes nothing and tells nothing.
pub connection-once :
    (w : Carrier) (n : ℕ) (connected : Bool) (fi : FriendInfo)
    → friends_get w.friends n ≡ some fi
    → same_status connected fi.connected ≡ false
    → ((notify_friend_connection_cb w n connected).trace
        ≡ friend_connection fi.userid connected ∷ w.trace)
      × ((friends_get (notify_friend_connection_cb w n connected).friends n
            ≡ some (record fi { connected = connected }))
          × (notify_friend_connection_cb (notify_friend_connection_cb w n connected) n connected
              ≡ notify_friend_connection_cb w n connected))
unfolding notify_friend_connection_cb connection_of
connection-once w n connected fi known change =
    let now = record fi { connected = connected } in
    let held = friends_get-put w.friends now n (same_of_get w.friends n {fi = fi} known) in
    let first : notify_friend_connection_cb w n connected
        ≡ act (record w { friends = friends_put w.friends now })
            (friend_connection fi.userid connected) =
      rw (known, change) refl in
    (
      ap (λ u. u.trace) first,
      (
        ap (λ u. friends_get u.friends n) first ∙ held,
        ap (λ u. notify_friend_connection_cb u n connected) first
            ∙ (rw (held, same_status_refl connected) refl ∙ sym first),
      ),
    )

-- A report of a new valid presence of a friend in the table tells the application once and is kept
-- in the table; the same report again changes nothing and tells nothing.
pub presence-once :
    (w : Carrier) (n status : ℕ) (fi : FriendInfo)
    → friends_get w.friends n ≡ some fi
    → status ≤ busy
    → status ≢ fi.presence
    → ((notify_friend_status_cb w n (pos status)).trace
        ≡ friend_presence fi.userid status ∷ w.trace)
      × ((friends_get (notify_friend_status_cb w n (pos status)).friends n
            ≡ some (record fi { presence = status }))
          × (notify_friend_status_cb (notify_friend_status_cb w n (pos status)) n (pos status)
              ≡ notify_friend_status_cb w n (pos status)))
unfolding notify_friend_status_cb presence_of
presence-once w n status fi known valid change =
    let now = record fi { presence = status } in
    let held = friends_get-put w.friends now n (same_of_get w.friends n {fi = fi} known) in
    let first : notify_friend_status_cb w n (pos status)
        ≡ act (record w { friends = friends_put w.friends now })
            (friend_presence fi.userid status) =
      rw (known, ltb_of_le busy status valid, ==_of_ne status fi.presence change) refl in
    (
      ap (λ u. u.trace) first,
      (
        ap (λ u. friends_get u.friends n) first ∙ held,
        ap (λ u. notify_friend_status_cb u n (pos status)) first
            ∙ (rw (held, ltb_of_le busy status valid, ==_of_eq status status refl) refl
                ∙ sym first),
      ),
    )

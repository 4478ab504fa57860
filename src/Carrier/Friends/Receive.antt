-- ===== src/Carrier/Friends/Receive.antt =====
-- What carrier/IOEX_carrier.c does with the packets of friends.
use my_test_module.Prelude.{ℕ, List, [], ◌∷◌, ◌++◌, Option, none, some, ◌==◌, if◌then◌else◌}
use my_test_module.Carrier.Friends.{
  FriendInfo, TransactedCallback, Carrier, Env, Cp, friend_request, message, invite_request,
  invite_response, other, friend_message, friend_invite, session_invite, invite_answer, act,
}
use my_test_module.Carrier.Friends.Tables.{
  friends_get, same_bytes, transacted_callbacks_get, transacted_callbacks_remove,
  history_put_invite,
}
use my_test_module.Carrier.Friends.Messages.{colon}

unfoldable pub handle_friend_message :
    Carrier → Option FriendInfo → Option (List ℕ) → List ℕ → Carrier
handle_friend_message w none name msg = w
handle_friend_message w (some fi) none msg = act w (friend_message fi.userid msg)
handle_friend_message w (some fi) (some name) msg = w

-- "session"
abbrev pub session : List ℕ
session = 115 ∷ 101 ∷ 115 ∷ 115 ∷ 105 ∷ 111 ∷ 110 ∷ []

abbrev pub from : List ℕ → Option (List ℕ) → List ℕ
from friendid none = friendid
from friendid (some name) = friendid ++ (colon ∷ name)

abbrev invited : Carrier → List ℕ → Option (List ℕ) → List ℕ → Carrier
invited w friendid none content = act w (friend_invite friendid content)
invited w friendid (some name) content =
    if same_bytes name session then act w (session_invite friendid content) else w

unfoldable pub handle_invite_request :
    Carrier → Option FriendInfo → Option (List ℕ) → ℕ → List ℕ → Carrier
handle_invite_request w none name tid content = w
handle_invite_request w (some fi) name tid content =
    invited (record w { thistory = history_put_invite w.thistory (from fi.userid name) tid })
      fi.userid name content

-- the reason of a refusal, or the data of an acceptance
abbrev pub take_answer :
    Carrier → List ℕ → ℕ → ℕ → Option (List ℕ) → List ℕ → Option TransactedCallback → Carrier
take_answer w friendid tid status reason content none = w
take_answer w friendid tid status reason content (some tcb) =
    let w1 = record w { tcallbacks = transacted_callbacks_remove w.tcallbacks tid } in
    act w1 (
      if status == 0
      then invite_answer tcb.callback friendid status none content
      else invite_answer tcb.callback friendid status reason [])

unfoldable pub handle_invite_response :
    Carrier → Option FriendInfo → ℕ → ℕ → Option (List ℕ) → List ℕ → Carrier
handle_invite_response w none tid status reason content = w
handle_invite_response w (some fi) tid status reason content =
    take_answer w fi.userid tid status reason content (transacted_callbacks_get w.tcallbacks tid)

unfoldable pub handle_packet : Carrier → ℕ → Option Cp → Carrier
handle_packet w n none = w
handle_packet w n (some (message ext msg)) =
    handle_friend_message w (friends_get w.friends n) ext msg
handle_packet w n (some (invite_request ext tid content)) =
    handle_invite_request w (friends_get w.friends n) ext tid content
handle_packet w n (some (invite_response ext tid status reason content)) =
    handle_invite_response w (friends_get w.friends n) tid status reason content
handle_packet w n (some (friend_request name descr hello)) = w
handle_packet w n (some other) = w

unfoldable pub notify_friend_message_cb : Env → Carrier → ℕ → List ℕ → Carrier
notify_friend_message_cb env w friend_number bytes =
    handle_packet w friend_number (env.decode bytes)

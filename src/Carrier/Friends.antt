-- ===== src/Carrier/Friends.antt =====
-- carrier/IOEX_carrier.c on friends, messages and invitations, with the tables of
-- carrier/friends.h, carrier/tcallbacks.h and carrier/thistory.h and the queue of
-- carrier/friend_event.h. `trace` records the callbacks of the application, the packets for the DHT
-- and the stores of the persistent data, the latest first.
pub mod Tables
pub mod Notify
pub mod Manage
pub mod Events
pub mod Messages
pub mod Receive
pub mod Invitation
pub mod Status
use my_test_module.Prelude.{ℕ, Bool, List, [], ◌∷◌, Option}
use my_test_module.Prelude.Returns.{Code}
use my_test_module.Carrier.Files

-- the parts of IOEXFriendInfo that are used here, and the number of the table
pub record FriendInfo : Type 0 where
  pub friend_number : ℕ
  pub userid : List ℕ
  pub label : List ℕ
  pub connected : Bool
  pub presence : ℕ

-- A callback with its context is a number.
pub record TransactedCallback : Type 0 where
  pub tid : ℕ
  pub callback : ℕ

pub record HistoryItem : Type 0 where
  pub key : List ℕ
  pub tid : ℕ

pub data FriendEvent : Type 0 where
  event_added event_removed : FriendInfo → FriendEvent

-- The packets of carrier/IOEXcp.c by their types; a string that may be NULL is an Option.
pub data Cp : Type 0 where
  friend_request : Option (List ℕ) → Option (List ℕ) → Option (List ℕ) → Cp
  message : Option (List ℕ) → List ℕ → Cp
  invite_request : Option (List ℕ) → ℕ → List ℕ → Cp
  invite_response : Option (List ℕ) → ℕ → ℕ → Option (List ℕ) → List ℕ → Cp
  other : Cp

pub data Action : Type 0 where
  ready : Action
  connection_status : Bool → Action
  friend_list : Option FriendInfo → Action
  friend_connection : List ℕ → Bool → Action
  friend_presence : List ℕ → ℕ → Action
  friend_asks : List ℕ → List ℕ → List ℕ → List ℕ → Action
  friend_added : FriendInfo → Action
  friend_removed : List ℕ → Action
  friend_message : List ℕ → List ℕ → Action
  friend_invite : List ℕ → List ℕ → Action
  session_invite : List ℕ → List ℕ → Action
  invite_answer : ℕ → List ℕ → ℕ → Option (List ℕ) → List ℕ → Action
  stored : Action
  dht_message : ℕ → List ℕ → Action
  dht_add : List ℕ → List ℕ → Action
  dht_add_norequest : List ℕ → Action
  dht_delete : ℕ → Action

-- `error` is what IOEX_set_error stored last.
pub record Carrier : Type 0 where
  pub is_ready : Bool
  pub connected : Bool
  pub me_userid : List ℕ
  pub me_name : List ℕ
  pub me_description : List ℕ
  pub base58_addr : List ℕ
  pub friends : List FriendInfo
  pub tcallbacks : List TransactedCallback
  pub thistory : List HistoryItem
  pub friend_events : List FriendEvent
  pub error : Code
  pub trace : List Action

-- What is called and not implemented here: `ids` decodes base58 and finds the number of a friend;
-- `base58_encode` is the other way; `creates` and `allocates` say whether IOEXcp_create and rc_alloc
-- have memory; `encode`, of which `none` is a lack of memory, and `decode` are those of packets; the
-- DHT answers to a message and, with the number of the friend, to the two ways to add one; `draws`
-- are the successive values of `time(NULL) + rand()`.
pub record Env : Type 0 where
  pub ids : Files.Env
  pub base58_encode : List ℕ → List ℕ
  pub creates : Bool
  pub allocates : Bool
  pub encode : Cp → Option (List ℕ)
  pub decode : List ℕ → Option Cp
  pub dht_friend_message : ℕ → List ℕ → Code
  pub dht_friend_add : List ℕ → List ℕ → Code
  pub dht_friend_add_norequest : List ℕ → Code
  pub draws : List ℕ

abbrev pub act : Carrier → Action → Carrier
act w a = record w { trace = a ∷ w.trace }

abbrev pub refuse : Carrier → Code → Carrier
refuse w rc = record w { error = rc }

-- IOEXERR_…
abbrev pub already_exist : ℕ
already_exist = 0x0c

abbrev pub no_matched_request : ℕ
no_matched_request = 0x0d

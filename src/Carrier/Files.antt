-- ===== src/Carrier/Files.antt =====
-- carrier/IOEX_carrier.c: the files that are offered to friends and by them.
-- `trace` records what the carrier does to its neighbours, the latest first: the callbacks of the
-- application, the packets it hands to the DHT and its changes of the file system. A callback that is
-- not set shows nothing; the callbacks do not call the carrier.
pub mod Tracker
pub mod FullPath
pub mod Notify
pub mod Send
pub mod Transfer
pub mod Cancel
pub mod Iterate
use my_test_module.Prelude.{
  ℕ, suc, ◌+◌, ◌-◌, ◌%◌, ◌^◌, Bool, true, false, not, ◌&&◌, List, [], ◌∷◌, ◌++◌, Option, none, some,
  length, drop, take, set, ltb, ◌==◌, if◌then◌else◌,
}
use my_test_module.Prelude.Returns.{Code, value, fail}
use my_test_module.Carrier.CString.{slash, c_string, strncpy, snprintf, strrchr, ends_with}

-- the arrays of IOEXFileInfo, and its numbers
pub record FileInfo : Type 0 where
  pub file_name : List ℕ
  pub file_path : List ℕ
  pub friend_number : ℕ
  pub file_index : ℕ

abbrev pub max_file_name_len : ℕ
max_file_name_len = 511

abbrev pub max_file_path_len : ℕ
max_file_path_len = 511

abbrev pub max_full_path_len : ℕ
max_full_path_len = 1023

-- A callback names the friend and the file; `none` is an array that was never written. `touched` is a
-- file that was opened in the mode "ab" and closed, which makes an empty one where there was none.
pub data Action : Type 0 where
  file_request : List ℕ → ℕ → List ℕ → ℕ → Action
  file_accepted file_rejected file_paused file_resumed file_canceled : List ℕ → ℕ → Action
  file_chunk_send : List ℕ → ℕ → Option (List ℕ) → ℕ → ℕ → Action
  file_chunk_send_error : Code → List ℕ → ℕ → Option (List ℕ) → ℕ → ℕ → Action
  file_chunk_receive : List ℕ → ℕ → Option (List ℕ) → ℕ → ℕ → Action
  dht_request : ℕ → List ℕ → Action
  dht_seek : ℕ → ℕ → ℕ → Action
  dht_accept dht_reject dht_pause dht_resume dht_cancel : ℕ → ℕ → Action
  dht_chunk : ℕ → ℕ → ℕ → List ℕ → Action
  unlinked touched : List ℕ → Action
  appended : List ℕ → List ℕ → Action

-- `error` is what IOEX_set_error stored last.
pub record Carrier : Type 0 where
  pub is_ready : Bool
  pub file_senders : List FileInfo
  pub file_receivers : List FileInfo
  pub error : Code
  pub trace : List Action

-- What the transfers call and do not implement: `memory` is what rc_alloc returns, with any contents;
-- `friends_get` finds a friend's user id; `dht` answers a packet, and `file_number` is the number that
-- dht_file_send_request gives a new file; `readable` and `writable` are fopen in the modes "rb", with
-- the contents, and "ab"; `reports_error` says whether the callback file_chunk_send_error is set.
pub record Env : Type 0 where
  pub memory : Option FileInfo
  pub friends_get : ℕ → Option (List ℕ)
  pub base58_decode : List ℕ → ℕ → Option (List ℕ)
  pub dht_get_friend_number : List ℕ → Option ℕ
  pub dht : Action → Code
  pub file_number : ℕ → List ℕ → ℕ
  pub readable : List ℕ → Option (List ℕ)
  pub writable : List ℕ → Bool
  pub reports_error : Bool

abbrev pub act : Carrier → Action → Carrier
act w a = record w { trace = a ∷ w.trace }

abbrev pub set_error : Carrier → Code → Carrier
set_error w rc = record w { error = rc }

-- IOEXERR_…, of which IOEX_GENERAL_ERROR makes a negative number
abbrev pub invalid_args : ℕ
invalid_args = 0x01

abbrev pub out_of_memory : ℕ
out_of_memory = 0x02

abbrev pub not_ready : ℕ
not_ready = 0x0a

abbrev pub not_exist : ℕ
not_exist = 0x0b

abbrev pub file_deny : ℕ
file_deny = 0x26

abbrev pub file_invalid : ℕ
file_invalid = 0x27

abbrev pub file_tracker_invalid : ℕ
file_tracker_invalid = 0x29

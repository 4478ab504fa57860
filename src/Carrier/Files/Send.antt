-- ===== src/Carrier/Files/Send.antt =====
-- The functions IOEX_send_file_… of carrier/IOEX_carrier.c, which the application calls. An argument is `none` for NULL; a string argument has no 0.
pub mod Laws
pub mod Refusal
use my_test_module.Prelude.{
  ℕ, ◌+◌, ◌-◌, ◌%◌, ◌^◌, Bool, true, false, not, ◌&&◌, ◌||◌, List, [], ◌∷◌, ◌++◌, Option, none,
  some, length, ◌==◌, if◌then◌else◌,
}
use my_test_module.Prelude.Returns.{Code, value, fail, is_fail}
use my_test_module.Carrier.CString.{slash, snprintf, ends_with, strtoul}
use my_test_module.Carrier.Files.{
  FileInfo, Carrier, Env, Action, dht_request, dht_seek, dht_accept, dht_reject, dht_pause,
  dht_resume, dht_cancel, touched, act, set_error, invalid_args, not_ready, not_exist, file_deny,
  file_invalid, file_tracker_invalid, max_full_path_len,
}
use my_test_module.Carrier.Files.Tracker.{
  add_new_file_sender, remove_file_receiver, update_file_receiver_path, find_file_receiver,
  find_either,
}
use my_test_module.Carrier.Files.Notify.{cancel}

-- `IOEX_set_error(rc); return -1;`
abbrev pub refuse : Carrier → Code → Carrier × Code
refuse w rc = (set_error w rc, fail 1)

-- `strtoul(fileindex, NULL, 10)`, stored in 32 bits
abbrev pub index_of : List ℕ → ℕ
index_of fileindex = strtoul fileindex % 2 ^ 32

abbrev key_size : ℕ
key_size = 32

-- base58_decode gives DHT_PUBLIC_KEY_SIZE bytes
abbrev is_key : Option (List ℕ) → Bool
is_key none = false
is_key (some key) = length key == key_size

module _ (env : Env) where
  abbrev pub is_valid_key : List ℕ → Bool
  is_valid_key friendid = is_key (env.base58_decode friendid 64)

  unfoldable pub get_friend_number : List ℕ → Code
  get_friend_number friendid =
      let public_key = env.base58_decode friendid key_size in
      if not (is_key public_key) then fail invalid_args else elim public_key [
        | none ↦ fail invalid_args
        | some key ↦ elim (env.dht_get_friend_number key) [
          | none ↦ fail not_exist
          | some n ↦ value n
        ]
      ]

  -- the tests that every function makes first, up to the friend's number
  unfoldable pub checked : Carrier → List ℕ → Code
  unfolding get_friend_number
  checked w friendid =
      if not (is_valid_key friendid)
      then fail invalid_args
      else if not w.is_ready
      then fail not_ready
      else get_friend_number friendid

  -- the end of every function: a packet for the DHT, and what it answers
  unfoldable pub dht_send : Carrier → Action → Carrier × Code
  dht_send w packet =
      let rc = env.dht packet in
      if is_fail rc then refuse (act w packet) rc else (act w packet, value 0)

  -- The file number of dht_file_send_request is UINT32_MAX when there is none; the error stored then
  -- is the answer, which may be no error.
  unfoldable pub send_file_request : Carrier → Option (List ℕ) → Option (List ℕ) → Carrier × Code
  unfolding checked
  send_file_request w none fullpath = refuse w (fail invalid_args)
  send_file_request w (some friendid) none = refuse w (fail invalid_args)
  send_file_request w (some friendid) (some fullpath) = elim (checked w friendid) [
    | fail e ↦ refuse w (fail e)
    | value friend_number ↦
        let rc = env.dht (dht_request friend_number fullpath) in
        let file_number = env.file_number friend_number fullpath in
        let w' = act w (dht_request friend_number fullpath) in
        let (added, rc') = add_new_file_sender env w' friend_number file_number (some fullpath) in
        if is_fail rc || file_number == 2 ^ 32 - 1
        then refuse w' rc
        else if is_fail rc'
        then refuse added rc'
        else (added, value 0)
  ]

  unfoldable pub send_file_seek :
      Carrier → Option (List ℕ) → Option (List ℕ) → Option (List ℕ) → Carrier × Code
  unfolding checked dht_send
  send_file_seek w none fileindex position = refuse w (fail invalid_args)
  send_file_seek w (some friendid) none position = refuse w (fail invalid_args)
  send_file_seek w (some friendid) (some fileindex) none = refuse w (fail invalid_args)
  send_file_seek w (some friendid) (some fileindex) (some position) = elim (checked w friendid) [
    | fail e ↦ refuse w (fail e)
    | value friend_number ↦
        let file_number = index_of fileindex in
        elim (find_file_receiver w friend_number file_number) [
          | none ↦ refuse w (fail file_invalid)
          | some receiver ↦ dht_send w (dht_seek friend_number file_number (strtoul position))
        ]
  ]

  -- where a file is written that is accepted under this name and path
  abbrev pub accepted_path : List ℕ → List ℕ → List ℕ
  accepted_path filename filepath =
      snprintf (max_full_path_len + 1)
        (if ends_with filepath slash then filepath ++ filename else filepath ++ slash ∷ filename)

  -- IOEX_send_file_accept, behind the test that no argument is NULL. The path is not empty.
  unfoldable pub accept : Carrier → List ℕ → List ℕ → List ℕ → List ℕ → Carrier × Code
  unfolding checked dht_send
  accept w friendid fileindex filename filepath = elim (checked w friendid) [
    | fail e ↦ refuse w (fail e)
    | value friend_number ↦
        let file_number = index_of fileindex in
        let receiver = find_file_receiver w friend_number file_number in
        let path = accepted_path filename filepath in
        let tested = act w (touched path) in
        let (w', rc) = update_file_receiver_path tested receiver filename filepath in
        if not (env.writable path) then refuse w (fail file_deny) else elim receiver [
          | none ↦ refuse tested (fail file_tracker_invalid)
          | some i ↦
              if is_fail rc
              then refuse w' rc
              else dht_send w' (dht_accept friend_number file_number)
        ]
  ]

  unfoldable pub send_file_accept :
      Carrier
      → Option (List ℕ)
      → Option (List ℕ)
      → Option (List ℕ)
      → Option (List ℕ)
      → Carrier × Code
  unfolding accept
  send_file_accept w (some friendid) (some fileindex) (some filename) (some filepath) =
      accept w friendid fileindex filename filepath
  send_file_accept w none fileindex filename filepath = refuse w (fail invalid_args)
  send_file_accept w (some friendid) none filename filepath = refuse w (fail invalid_args)
  send_file_accept w (some friendid) (some fileindex) none filepath = refuse w (fail invalid_args)
  send_file_accept w (some friendid) (some fileindex) (some filename) none =
      refuse w (fail invalid_args)

  unfoldable pub send_file_reject : Carrier → Option (List ℕ) → Option (List ℕ) → Carrier × Code
  unfolding checked dht_send
  send_file_reject w none fileindex = refuse w (fail invalid_args)
  send_file_reject w (some friendid) none = refuse w (fail invalid_args)
  send_file_reject w (some friendid) (some fileindex) = elim (checked w friendid) [
    | fail e ↦ refuse w (fail e)
    | value friend_number ↦
        let file_number = index_of fileindex in
        elim (find_file_receiver w friend_number file_number) [
          | none ↦ refuse w (fail file_tracker_invalid)
          | some receiver ↦
              dht_send (remove_file_receiver w receiver) (dht_reject friend_number file_number)
        ]
  ]

  unfoldable pub send_file_pause : Carrier → Option (List ℕ) → Option (List ℕ) → Carrier × Code
  unfolding checked dht_send
  send_file_pause w none fileindex = refuse w (fail invalid_args)
  send_file_pause w (some friendid) none = refuse w (fail invalid_args)
  send_file_pause w (some friendid) (some fileindex) = elim (checked w friendid) [
    | fail e ↦ refuse w (fail e)
    | value friend_number ↦
        let file_number = index_of fileindex in
        elim (find_either w friend_number file_number) [
          | none ↦ refuse w (fail file_tracker_invalid)
          | some tracker ↦ dht_send w (dht_pause friend_number file_number)
        ]
  ]

  unfoldable pub send_file_resume : Carrier → Option (List ℕ) → Option (List ℕ) → Carrier × Code
  unfolding checked dht_send
  send_file_resume w none fileindex = refuse w (fail invalid_args)
  send_file_resume w (some friendid) none = refuse w (fail invalid_args)
  send_file_resume w (some friendid) (some fileindex) = elim (checked w friendid) [
    | fail e ↦ refuse w (fail e)
    | value friend_number ↦
        let file_number = index_of fileindex in
        elim (find_either w friend_number file_number) [
          | none ↦ refuse w (fail file_tracker_invalid)
          | some tracker ↦ dht_send w (dht_resume friend_number file_number)
        ]
  ]

  unfoldable pub send_file_cancel : Carrier → Option (List ℕ) → Option (List ℕ) → Carrier × Code
  unfolding checked dht_send
  send_file_cancel w none fileindex = refuse w (fail invalid_args)
  send_file_cancel w (some friendid) none = refuse w (fail invalid_args)
  send_file_cancel w (some friendid) (some fileindex) = elim (checked w friendid) [
    | fail e ↦ refuse w (fail e)
    | value friend_number ↦
        let file_number = index_of fileindex in
        dht_send (cancel w friend_number file_number) (dht_cancel friend_number file_number)
  ]

-- ===== src/Carrier/Files/Notify.antt =====
-- The callbacks notify_file_…_cb of carrier/IOEX_carrier.c, which the DHT calls when a packet of a
-- friend arrives. The DHT names no friend by UINT32_MAX, as the callbacks assert.
use my_test_module.Prelude.{ℕ, ◌&&◌, List, Option, none, some, take, drop, ◌==◌, if◌then◌else◌}
use my_test_module.Prelude.Returns.{fail, is_fail}
use my_test_module.Carrier.Files.{
  Carrier, Env, file_request, file_accepted, file_rejected, file_paused, file_resumed,
  file_canceled, file_chunk_send, file_chunk_send_error, file_chunk_receive, dht_chunk, unlinked,
  appended, act, set_error, not_exist, file_invalid, file_tracker_invalid,
}
use my_test_module.Carrier.Files.Tracker.{
  is_sender, get_fullpath, add_new_file_receiver, remove_file_sender, remove_file_receiver,
  find_file_sender, find_file_receiver, find_either, tracked,
}

-- `remove_file_sender(w, tracker)` and `remove_file_receiver(w, tracker)`. Of NULL, which
-- remove_tracker asserts it is not, nothing is removed where asserts are off.
abbrev pub remove_sender : Carrier → Option ℕ → Carrier
remove_sender w none = w
remove_sender w (some i) = remove_file_sender w i

abbrev pub remove_receiver : Carrier → Option ℕ → Carrier
remove_receiver w none = w
remove_receiver w (some i) = remove_file_receiver w i

-- `unlink(fullpath)`, if there is a path
abbrev pub unlink : Carrier → Option (List ℕ) → Carrier
unlink w none = w
unlink w (some path) = act w (unlinked path)

-- the two branches by which a transfer is canceled, here and in IOEX_send_file_cancel
unfoldable pub cancel : Carrier → ℕ → ℕ → Carrier
cancel w friend_number file_number =
    if is_sender file_number
    then remove_sender w (find_file_sender w friend_number file_number)
    else let tracker = find_file_receiver w friend_number file_number in
      remove_receiver (unlink w (get_fullpath (tracked w.file_receivers tracker))) tracker

module _ (env : Env) where
  unfoldable pub notify_file_request_cb : Carrier → ℕ → ℕ → List ℕ → ℕ → Carrier
  notify_file_request_cb w friend_number file_number filename filesize =
      elim (env.friends_get friend_number) [
        | none ↦ set_error w (fail not_exist)
        | some userid ↦
            let (w', rc) = add_new_file_receiver env w friend_number file_number (some filename) in
            if is_fail rc
            then set_error w' rc
            else act w' (file_request userid file_number filename filesize)
      ]

  unfoldable pub notify_file_accepted_cb : Carrier → ℕ → ℕ → Carrier
  notify_file_accepted_cb w friend_number file_number = elim (env.friends_get friend_number) [
    | none ↦ set_error w (fail not_exist)
    | some userid ↦ elim (find_file_sender w friend_number file_number) [
      | none ↦ set_error w (fail file_tracker_invalid)
      | some sender ↦ act w (file_accepted userid file_number)
    ]
  ]

  unfoldable pub notify_file_rejected_cb : Carrier → ℕ → ℕ → Carrier
  notify_file_rejected_cb w friend_number file_number = elim (env.friends_get friend_number) [
    | none ↦ set_error w (fail not_exist)
    | some userid ↦ elim (find_file_sender w friend_number file_number) [
      | none ↦ set_error w (fail file_tracker_invalid)
      | some sender ↦ act (remove_file_sender w sender) (file_rejected userid file_number)
    ]
  ]

  unfoldable pub notify_file_paused_cb : Carrier → ℕ → ℕ → Carrier
  notify_file_paused_cb w friend_number file_number = elim (env.friends_get friend_number) [
    | none ↦ set_error w (fail not_exist)
    | some userid ↦ elim (find_either w friend_number file_number) [
      | none ↦ set_error w (fail file_tracker_invalid)
      | some tracker ↦ act w (file_paused userid file_number)
    ]
  ]

  unfoldable pub notify_file_resumed_cb : Carrier → ℕ → ℕ → Carrier
  notify_file_resumed_cb w friend_number file_number = elim (env.friends_get friend_number) [
    | none ↦ set_error w (fail not_exist)
    | some userid ↦ elim (find_either w friend_number file_number) [
      | none ↦ set_error w (fail file_tracker_invalid)
      | some tracker ↦ act w (file_resumed userid file_number)
    ]
  ]

  unfoldable pub notify_file_canceled_cb : Carrier → ℕ → ℕ → Carrier
  unfolding cancel
  notify_file_canceled_cb w friend_number file_number = elim (env.friends_get friend_number) [
    | none ↦ set_error w (fail not_exist)
    | some userid ↦ act (cancel w friend_number file_number) (file_canceled userid file_number)
  ]

  -- the transfer of a chunk that could be read, at most 4096 bytes
  unfoldable pub send_chunk : Carrier → List ℕ → ℕ → ℕ → Option (List ℕ) → List ℕ → ℕ → ℕ → Carrier
  send_chunk w userid friend_number file_number fullpath contents position length =
      let chunk =
        dht_chunk friend_number file_number position (take length (drop position contents)) in
      let rc = env.dht chunk in
      if is_fail rc && env.reports_error
      then act (act w chunk) (file_chunk_send_error rc userid file_number fullpath position length)
      else act (act w chunk) (file_chunk_send userid file_number fullpath position length)

  -- `fopen(fullpath, "rb")`, if there is a path
  abbrev pub open_read : Option (List ℕ) → Option (List ℕ)
  open_read none = none
  open_read (some path) = env.readable path

  -- A chunk of length 0 ends the transfer.
  unfoldable pub notify_file_chunk_request_cb : Carrier → ℕ → ℕ → ℕ → ℕ → Carrier
  unfolding send_chunk
  notify_file_chunk_request_cb w friend_number file_number position length =
      elim (env.friends_get friend_number) [
        | none ↦ w
        | some userid ↦
            let sender = find_file_sender w friend_number file_number in
            let fullpath = get_fullpath (tracked w.file_senders sender) in
            if length == 0 then remove_sender w sender else elim (open_read fullpath) [
              | some contents ↦
                  send_chunk w userid friend_number file_number fullpath contents position length
              | none ↦
                  if env.reports_error
                  then act w (
                      file_chunk_send_error (fail file_invalid) userid file_number fullpath position
                        length)
                  else w
            ]
      ]

  -- the write of a chunk, at the end of the file in mode "ab"
  abbrev pub append_chunk : Carrier → Option (List ℕ) → List ℕ → Carrier
  append_chunk w none chunk = w
  append_chunk w (some path) chunk = if env.writable path then act w (appended path chunk) else w

  -- `chunk` has `length` bytes.
  unfoldable pub notify_file_chunk_receive_cb : Carrier → ℕ → ℕ → ℕ → List ℕ → ℕ → Carrier
  notify_file_chunk_receive_cb w friend_number file_number position chunk length =
      elim (env.friends_get friend_number) [
        | none ↦ w
        | some userid ↦
            let receiver = find_file_receiver w friend_number file_number in
            let fullpath = get_fullpath (tracked w.file_receivers receiver) in
            if length == 0
            then act (remove_receiver w receiver)
                (file_chunk_receive userid file_number none position length)
            else act (append_chunk w fullpath chunk)
                (file_chunk_receive userid file_number fullpath position length)
      ]

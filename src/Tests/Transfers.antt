-- ===== src/Tests/Transfers.antt =====
-- File transfers of carrier/IOEX_carrier.c with one friend.
use my_test_module.Prelude.{
  ◌⊎◌, ℕ, ◌≡◌, refl, Bool, true, false, List, [], ◌∷◌, none, some, arith, inr, replicate, ◌==◌,
  if◌then◌else◌,
}
use my_test_module.Prelude.Returns.{value, is_fail}
use my_test_module.Carrier.CString
use my_test_module.Carrier.CString.{c_string, strncpy, strrchr, ends_with, strtoul, slash}
use my_test_module.Carrier.CString.Laws.{IsString}
use my_test_module.Carrier.Files.{
  FileInfo, Carrier, Env, act, file_accepted, file_canceled, file_chunk_receive, dht_cancel,
  dht_reject, unlinked, appended,
}
use my_test_module.Carrier.Files.Tracker.{get_fullpath, new_sender, find_file_tracker, file_tracker}
use my_test_module.Carrier.Files.Tracker.Laws.{lookup}
use my_test_module.Carrier.Files.FullPath.{get_fullpath-new_sender, get_fullpath-root}
use my_test_module.Carrier.Files.Notify.{
  notify_file_accepted_cb, notify_file_canceled_cb, notify_file_chunk_request_cb,
  notify_file_chunk_receive_cb, send_chunk,
}
use my_test_module.Carrier.Files.Send.{
  accepted_path, checked, get_friend_number, send_file_request, send_file_accept, send_file_reject,
  send_file_cancel,
}
use my_test_module.Carrier.Files.Send.Laws.{send_file_reject_lem}
use my_test_module.Carrier.Files.Send.Refusal.{IsKnown, Refusal, AllRefuse, checks_decide}
use my_test_module.Carrier.Files.Transfer.{send_file_request-chunk, send_file_accept-chunk}
use my_test_module.Carrier.Files.Cancel.{Forgets, cancel_receiver, cancel_sender}
use my_test_module.Carrier.Files.Iterate.{Visit, sending, receiving, get_files, get_files_lem}

-- "/a/b" and "a"
abbrev path : List ℕ
path = 47 ∷ 97 ∷ 47 ∷ 98 ∷ []

abbrev name : List ℕ
name = 97 ∷ []

-- memory that was never written
abbrev garbage : FileInfo
garbage = record {
  file_name = replicate 4 1;
  file_path = replicate 4 1;
  friend_number = 0;
  file_index = 0;
}

abbrev env : Env
env = record {
  memory = some garbage;
  friends_get = λ f. if f == 5 then some (9 ∷ []) else none;
  base58_decode = λ s n. some (replicate 32 7);
  dht_get_friend_number = λ key. some 5;
  dht = λ packet. value 0;
  file_number = λ f p. 3;
  readable = λ p. some (1 ∷ 2 ∷ 3 ∷ []);
  writable = λ p. true;
  reports_error = true;
}

-- an offered file with the index 65536 = "65536", named "a", to be stored below "/"
abbrev offered : FileInfo
offered = record {
  file_name = 97 ∷ 0 ∷ [];
  file_path = 47 ∷ 0 ∷ [];
  friend_number = 5;
  file_index = 65536;
}

abbrev sent_file : FileInfo
sent_file = record {
  file_name = 97 ∷ 0 ∷ [];
  file_path = 0 ∷ [];
  friend_number = 5;
  file_index = 2;
}

abbrev carrier : Carrier
carrier = record {
  is_ready = true;
  file_senders = sent_file ∷ [];
  file_receivers = offered ∷ [];
  error = value 0;
  trace = [];
}

-- "65536", "65537", "2" and a friend's id
abbrev index : List ℕ
index = 54 ∷ 53 ∷ 53 ∷ 51 ∷ 54 ∷ []

abbrev other_index : List ℕ
other_index = 54 ∷ 53 ∷ 53 ∷ 51 ∷ 55 ∷ []

abbrev two : List ℕ
two = 50 ∷ []

abbrev friendid : List ℕ
friendid = 70 ∷ []

known : checked env carrier friendid ≡ value 5
unfolding checked get_friend_number
known = refl

found : lookup carrier.file_receivers 5 65536 ≡ some offered
unfolding lookup find_file_tracker file_tracker
found = refl

found_sender : lookup carrier.file_senders 5 2 ≡ some sent_file
unfolding lookup find_file_tracker file_tracker
found_sender = refl

strtoul_run : strtoul (32 ∷ 45 ∷ 49 ∷ []) ≡ 18446744073709551615
unfolding strtoul CString.digits
strtoul_run = refl

path-IsString : IsString path
path-IsString =
    ((λ e. omega arith), ((λ e. omega arith), ((λ e. omega arith), ((λ e. omega arith), tt))))

name-IsString : IsString name
name-IsString = ((λ e. omega arith), tt)

get_fullpath-new_sender_example : get_fullpath (some (new_sender garbage 5 3 path)) ≡ some path
unfolding strrchr ends_with
get_fullpath-new_sender_example =
    get_fullpath-new_sender garbage 5 3 path path-IsString (omega arith)
      (inr (2, refl, omega arith, refl))

get_fullpath-root_example :
    get_fullpath (some (new_sender garbage 5 3 (47 ∷ 97 ∷ []))) ≡ some (97 ∷ [])
unfolding strrchr
get_fullpath-root_example =
    get_fullpath-root garbage 5 3 (47 ∷ 97 ∷ []) ((λ e. omega arith), name-IsString) (omega arith)
      name refl refl

send_file_request-chunk_example :
    let (w', rc) = send_file_request env carrier (some friendid) (some path) in
    (rc ≡ value 0)
    × (notify_file_accepted_cb env w' 5 3 ≡ act w' (file_accepted (9 ∷ []) 3))
    × (notify_file_chunk_request_cb env w' 5 3 0 2
        ≡ send_chunk env w' (9 ∷ []) 5 3 (some path) (1 ∷ 2 ∷ 3 ∷ []) 0 2)
unfolding strrchr ends_with lookup find_file_tracker
send_file_request-chunk_example =
    send_file_request-chunk env carrier friendid path 5 0 garbage known refl (λ e. omega arith) refl
      (9 ∷ []) (1 ∷ 2 ∷ 3 ∷ []) 0 2 path-IsString (omega arith) (inr (2, refl, omega arith, refl))
      refl refl refl (λ e. omega arith)

send_file_accept-chunk_example :
    let (w', rc) =
      send_file_accept env carrier (some friendid) (some index) (some name) (some path) in
    let target = accepted_path env name path in
    (rc ≡ value 0)
    × (notify_file_chunk_receive_cb env w' 5 65536 0 (1 ∷ 2 ∷ []) 2
        ≡ act
            (act w' (appended target (1 ∷ 2 ∷ [])))
            (file_chunk_receive (9 ∷ []) 65536 (some target) 0 2))
unfolding strtoul CString.digits
send_file_accept-chunk_example =
    send_file_accept-chunk env carrier friendid index name path 5 0 {info = offered} known found
      refl refl (9 ∷ []) (1 ∷ 2 ∷ []) 0 2 name-IsString path-IsString (omega arith) (omega arith)
      (omega arith) refl (λ e. omega arith)

cancel_receiver_example :
    let (w', rc) = send_file_cancel env carrier (some friendid) (some index) in
    let heard = notify_file_canceled_cb env carrier 5 65536 in
    (w'.trace ≡ dht_cancel 5 65536 ∷ unlinked (47 ∷ 97 ∷ []) ∷ [])
    × (heard.trace ≡ file_canceled (9 ∷ []) 65536 ∷ unlinked (47 ∷ 97 ∷ []) ∷ [])
    × Forgets 5 65536 carrier.file_receivers w'.file_receivers
    × (heard.file_receivers ≡ w'.file_receivers)
    × (w'.file_senders ≡ carrier.file_senders)
    × (heard.file_senders ≡ carrier.file_senders)
unfolding strtoul CString.digits get_fullpath c_string ends_with
cancel_receiver_example =
    cancel_receiver env carrier friendid index (9 ∷ []) 5 known refl {info = offered}
      {path = 47 ∷ 97 ∷ []} refl (tt, tt) found refl

cancel_sender_example :
    let (w', rc) = send_file_cancel env carrier (some friendid) (some two) in
    let heard = notify_file_canceled_cb env carrier 5 2 in
    (w'.trace ≡ dht_cancel 5 2 ∷ [])
    × (heard.trace ≡ file_canceled (9 ∷ []) 2 ∷ [])
    × Forgets 5 2 carrier.file_senders w'.file_senders
    × (heard.file_senders ≡ w'.file_senders)
    × (w'.file_receivers ≡ carrier.file_receivers)
    × (heard.file_receivers ≡ carrier.file_receivers)
unfolding strtoul CString.digits
cancel_sender_example =
    cancel_sender env carrier friendid two (9 ∷ []) 5 known refl {info = sent_file} refl (tt, tt)
      found_sender

send_file_reject_lem_example :
    let (w', rc) = send_file_reject env carrier (some friendid) (some index) in
    (w'.trace ≡ dht_reject 5 65536 ∷ [])
    × (is_fail rc ≡ false)
    × (w'.file_senders ≡ carrier.file_senders)
    × (w'.is_ready ≡ true)
    × Forgets 5 65536 carrier.file_receivers w'.file_receivers
unfolding strtoul CString.digits
send_file_reject_lem_example =
    send_file_reject_lem env carrier friendid index 5 known {info = offered} (tt, tt) found

abbrev starting : Carrier
starting = record carrier { is_ready = false }

checks_decide_example :
    ((f : ℕ) × (IsKnown env starting friendid f × (checked env starting friendid ≡ value f)))
    ⊎ ((e : ℕ) × (Refusal env starting friendid e
          × AllRefuse env starting friendid index name path path two e))
checks_decide_example = checks_decide env starting friendid index name path path two

-- a callback that wants no second file
abbrev only_sending : Visit → Bool
only_sending (sending info) = true
only_sending v = false

get_files_lem_example :
    get_files carrier (some only_sending)
    ≡ (sending sent_file ∷ receiving offered ∷ [], (carrier, value 0))
get_files_lem_example = get_files_lem carrier only_sending

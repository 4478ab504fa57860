-- ===== src/Carrier/Files/Tracker.antt =====
-- The trackers of carrier/IOEX_carrier.c: the two lists of files, and the full path of a file.
pub mod Laws
use my_test_module.Prelude.{
  ℕ, zero, suc, Bool, true, false, ◌&&◌, List, [], ◌∷◌, ◌++◌, Option, none, some, length, drop, set,
  ltb, ◌==◌, if◌then◌else◌,
}
use my_test_module.Prelude.Returns.{Code, value, fail}
use my_test_module.Carrier.CString.{slash, c_string, strncpy, snprintf, strrchr, ends_with}
use my_test_module.Carrier.Files.{
  FileInfo, Carrier, Env, max_file_name_len, max_file_path_len, max_full_path_len, invalid_args,
  out_of_memory, file_tracker_invalid,
}

-- `none` is NULL, and the answer `false`
unfoldable pub get_fullpath : Option FileInfo → Option (List ℕ)
get_fullpath none = none
get_fullpath (some info) =
    let path = c_string info.file_path in
    let name = c_string info.file_name in
    some (
      snprintf max_full_path_len (
        if length path == 0
        then name
        else if ends_with path slash
        then path ++ name
        else path ++ slash ∷ name))

abbrev pub is_sender : ℕ → Bool
is_sender file_number = ltb file_number 65536

-- the test of the loop of _find_file_tracker
abbrev pub is_tracker : ℕ → ℕ → FileInfo → Bool
is_tracker friend_number file_number info =
    info.friend_number == friend_number && info.file_index == file_number

-- The place in the list stands for the pointer to the tracker.
unfoldable pub find_file_tracker : List FileInfo → ℕ → ℕ → Option ℕ
find_file_tracker [] friend_number file_number = none
find_file_tracker (info ∷ fts) friend_number file_number =
    let rest = find_file_tracker fts friend_number file_number in
    if is_tracker friend_number file_number info
    then some 0
    else elim rest [ none ↦ none | some i ↦ some (suc i) ]

-- what a pointer to a tracker points to
unfoldable pub file_tracker : List FileInfo → ℕ → Option FileInfo
file_tracker [] i = none
file_tracker (info ∷ fts) zero = some info
file_tracker (info ∷ fts) (suc i) = file_tracker fts i

-- `remove_tracker`
unfoldable pub remove_tracker : List FileInfo → ℕ → List FileInfo
remove_tracker [] i = []
remove_tracker (info ∷ fts) zero = fts
remove_tracker (info ∷ fts) (suc i) = info ∷ remove_tracker fts i

-- The name and the directory of a file to send are copied into the arrays of a new tracker, split at
-- the last slash. A directory of 512 bytes or more would be written past the end of its array.
unfoldable pub sender_name : List ℕ → List ℕ → Option ℕ → List ℕ
sender_name file_name fullpath none = strncpy file_name fullpath 512
sender_name file_name fullpath (some pch) = strncpy file_name (drop (suc pch) fullpath) 512

unfoldable pub sender_path : List ℕ → List ℕ → Option ℕ → List ℕ
sender_path file_path fullpath none = strncpy file_path [] 512
sender_path file_path fullpath (some pch) = set (strncpy file_path fullpath (suc pch)) pch 0

abbrev pub new_sender : FileInfo → ℕ → ℕ → List ℕ → FileInfo
new_sender info friend_number file_number fullpath = record {
  file_name = sender_name info.file_name fullpath (strrchr fullpath slash);
  file_path = sender_path info.file_path fullpath (strrchr fullpath slash);
  friend_number = friend_number;
  file_index = file_number;
}

unfoldable pub add_new_file_sender : Env → Carrier → ℕ → ℕ → Option (List ℕ) → Carrier × Code
add_new_file_sender env w friend_number file_number fullpath = elim env.memory [
  | none ↦ (w, fail out_of_memory)
  | some info ↦ elim fullpath [
    | none ↦ (w, fail invalid_args)
    | some path ↦ (
      record w {
        file_senders = w.file_senders ++ new_sender info friend_number file_number path ∷ [];
      },
      value 0,
    )
  ]
]

-- "/tmp/"
abbrev pub tmp : List ℕ
tmp = 47 ∷ 116 ∷ 109 ∷ 112 ∷ 47 ∷ []

abbrev pub new_receiver : FileInfo → ℕ → ℕ → List ℕ → FileInfo
new_receiver info friend_number file_number filename = record {
  file_name = strncpy info.file_name filename 512;
  file_path = strncpy info.file_path tmp 512;
  friend_number = friend_number;
  file_index = file_number;
}

unfoldable pub add_new_file_receiver : Env → Carrier → ℕ → ℕ → Option (List ℕ) → Carrier × Code
add_new_file_receiver env w friend_number file_number filename = elim env.memory [
  | none ↦ (w, fail out_of_memory)
  | some info ↦ elim filename [
    | none ↦ (w, fail invalid_args)
    | some name ↦ (
      record w {
        file_receivers = w.file_receivers ++ new_receiver info friend_number file_number name ∷ [];
      },
      value 0,
    )
  ]
]

abbrev pub remove_file_sender : Carrier → ℕ → Carrier
remove_file_sender w sender = record w { file_senders = remove_tracker w.file_senders sender }

abbrev pub remove_file_receiver : Carrier → ℕ → Carrier
remove_file_receiver w receiver = record w {
  file_receivers = remove_tracker w.file_receivers receiver;
}

-- a write through a pointer to a tracker
unfoldable pub update_file_tracker : List FileInfo → ℕ → (FileInfo → FileInfo) → List FileInfo
update_file_tracker [] i f = []
update_file_tracker (info ∷ fts) zero f = f info ∷ fts
update_file_tracker (info ∷ fts) (suc i) f = info ∷ update_file_tracker fts i f

-- the writes of update_file_receiver_path
abbrev pub with_path : List ℕ → List ℕ → FileInfo → FileInfo
with_path filename filepath info = record info {
  file_name = strncpy info.file_name filename max_file_name_len;
  file_path = strncpy info.file_path filepath max_file_path_len;
}

unfoldable pub update_file_receiver_path : Carrier → Option ℕ → List ℕ → List ℕ → Carrier × Code
update_file_receiver_path w none filename filepath = (w, fail file_tracker_invalid)
update_file_receiver_path w (some receiver) filename filepath = (
  record w {
    file_receivers = update_file_tracker w.file_receivers receiver (with_path filename filepath);
  },
  value 0,
)

abbrev pub find_file_sender : Carrier → ℕ → ℕ → Option ℕ
find_file_sender w friend_number file_number =
    find_file_tracker w.file_senders friend_number file_number

abbrev pub find_file_receiver : Carrier → ℕ → ℕ → Option ℕ
find_file_receiver w friend_number file_number =
    find_file_tracker w.file_receivers friend_number file_number

-- the tracker on the side that the file number tells
abbrev pub find_either : Carrier → ℕ → ℕ → Option ℕ
find_either w friend_number file_number =
    if is_sender file_number
    then find_file_sender w friend_number file_number
    else find_file_receiver w friend_number file_number

-- A pointer to a tracker, or NULL, and what it points to.
abbrev pub tracked : List FileInfo → Option ℕ → Option FileInfo
tracked fts none = none
tracked fts (some i) = file_tracker fts i

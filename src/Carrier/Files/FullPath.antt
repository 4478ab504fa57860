-- ===== src/Carrier/Files/FullPath.antt =====
-- The full path that carrier/IOEX_carrier.c takes apart for a tracker and puts together again.
use my_test_module.Prelude.{
  ℕ, suc, ◌+◌, ◌<◌, ◌≤◌, ◌≡◌, ◌≢◌, ◌⊎◌, ap, ◌∙◌, false, List, [], ◌∷◌, ◌++◌, none, some, arith, inl,
  inr, length, take, drop, ◌==◌, if◌then◌else◌, ==_of_ne, take_all, length-take, length-drop,
  length-append,
}
use my_test_module.Carrier.CString.{slash, c_string, strrchr, ends_with}
use my_test_module.Carrier.CString.Laws.{
  IsString, c_string-strncpy, c_string-set-strncpy, strrchr_lem, Split, IsString-drop,
}
use my_test_module.Carrier.Files.{FileInfo}
use my_test_module.Carrier.Files.Tracker.{get_fullpath, new_sender, sender_name, sender_path}

-- how a directory and a name are put together
abbrev pub joined : List ℕ → List ℕ → List ℕ
joined path name =
    if length path == 0
    then name
    else if ends_with path slash
    then path ++ name
    else path ++ slash ∷ name

pub length-joined :
    (path name : List ℕ) → length (joined path name) ≤ length path + suc (length name)
length-joined path name = ground (arith, length-append path name, length-append path (slash ∷ name))

-- the path of a tracker whose arrays hold these strings
pub get_fullpath_of :
    (info : FileInfo) {path name : List ℕ}
    → c_string info.file_path ≡ path
    → c_string info.file_name ≡ name
    → length path + length name < 1022
    → get_fullpath (some info) ≡ some (joined path name)
unfolding get_fullpath
get_fullpath_of info {path} {name} p n h =
    rw (p, n) (ap some (take_all 1022 (joined path name) (omega (arith, length-joined path name))))

-- The last slash stands behind a directory that is not empty and does not end in another one, or
-- there is none.
abbrev pub IsPlain : List ℕ → Type 0
IsPlain fullpath =
    (strrchr fullpath slash ≡ none)
    ⊎ ((i : ℕ) × (strrchr fullpath slash ≡ some i)
        × (0 < i)
        × (ends_with (take i fullpath) slash ≡ false))

-- the arrays of a new tracker, by where the last slash stands
module _ (info : FileInfo) (friend_number file_number : ℕ) (fullpath : List ℕ)
    (w : IsString fullpath) (h : length fullpath < 512) where
  abbrev made : FileInfo
  made = new_sender info friend_number file_number fullpath

  name_alone : strrchr fullpath slash ≡ none → c_string made.file_name ≡ fullpath
  unfolding sender_name
  name_alone e =
      ap (λ o. c_string (sender_name info.file_name fullpath o)) e
      ∙ c_string-strncpy info.file_name fullpath 512 w h

  no_path : strrchr fullpath slash ≡ none → c_string made.file_path ≡ []
  unfolding sender_path
  no_path e =
      ap (λ o. c_string (sender_path info.file_path fullpath o)) e
      ∙ c_string-strncpy info.file_path [] 512 tt (omega arith)

  name_behind :
      {i : ℕ} → strrchr fullpath slash ≡ some i → c_string made.file_name ≡ drop (suc i) fullpath
  unfolding sender_name
  name_behind {i} e =
      ap (λ o. c_string (sender_name info.file_name fullpath o)) e
      ∙ c_string-strncpy info.file_name (drop (suc i) fullpath) 512
          (IsString-drop (suc i) fullpath w) (omega (arith, length-drop (suc i) fullpath))

  path_before :
      {i : ℕ} → strrchr fullpath slash ≡ some i → c_string made.file_path ≡ take i fullpath
  unfolding sender_path
  path_before {i} e =
      let split : Split fullpath slash (some i) = rw e at (strrchr_lem fullpath slash) in
      ap (λ o. c_string (sender_path info.file_path fullpath o)) e
      ∙ c_string-set-strncpy info.file_path fullpath i w split.0

  -- The directory and the name put together are the path again.
  joined-split :
      (i : ℕ)
      → strrchr fullpath slash ≡ some i
      → 0 < i
      → ends_with (take i fullpath) slash ≡ false
      → joined (take i fullpath) (drop (suc i) fullpath) ≡ fullpath
  joined-split i e pos ends =
      let split : Split fullpath slash (some i) = rw e at (strrchr_lem fullpath slash) in
      let ne : length (take i fullpath) ≢ 0 = omega (arith, length-take i fullpath, split.0) in
      rw (==_of_ne _ 0 ne, ends) split.1

  -- The name and the directory that a new sender keeps of a path give the path back, if it is a
  -- string of less than 512 bytes whose directory, where it has one, is neither empty nor ends in a
  -- slash.
  pub get_fullpath-new_sender : IsPlain fullpath → get_fullpath (some made) ≡ some fullpath
  get_fullpath-new_sender (inl e) = get_fullpath_of made (no_path e) (name_alone e) (omega arith)
  get_fullpath-new_sender (inr (i, e, pos, ends)) =
      get_fullpath_of made (path_before e) (name_behind e)
        (omega (arith, length-take i fullpath, length-drop (suc i) fullpath))
      ∙ ap some (joined-split i e pos ends)

  -- A path of less than 512 bytes whose only slash is its first byte, a file in the root directory,
  -- comes back without that slash.
  pub get_fullpath-root :
      (name : List ℕ)
      → fullpath ≡ slash ∷ name
      → strrchr fullpath slash ≡ some 0
      → get_fullpath (some made) ≡ some name
  get_fullpath-root name e first =
      get_fullpath_of made {path = []} {name = name} (path_before first)
        (name_behind first ∙ ap (drop 1) e)
        (let n : length fullpath ≡ suc (length name) = ap length e in omega (arith, n))

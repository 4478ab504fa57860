-- ===== src/Carrier/Files/Send/Laws.antt =====
-- IOEX_send_file_… of carrier/IOEX_carrier.c: when they refuse, and what they do to the trackers.
use my_test_module.Prelude.{
  ℕ, ◌≡◌, refl, ◌∙◌, ◌&&◌, List, ◌∷◌, none, some, inl, inr, ◌==◌, if◌then◌else◌, Bool-cases,
  ==_of_eq,
}
use my_test_module.Prelude.Returns.{Code, value, fail, is_fail, Code-cases}
use my_test_module.Carrier.Files.{
  FileInfo, Carrier, Env, file_invalid, file_deny, file_tracker_invalid, dht_reject, touched, act,
}
use my_test_module.Carrier.Files.Tracker.{find_file_receiver, find_either}
use my_test_module.Carrier.Files.Tracker.Laws.{
  lookup, lookup-remove, IsDistinct, find-lookup, find_of_lookup-none,
}
use my_test_module.Carrier.Files.Send.{
  refuse, index_of, checked, dht_send, accept, accepted_path, send_file_seek, send_file_accept,
  send_file_reject, send_file_pause, send_file_resume,
}

module _ (env : Env) (w : Carrier) (friendid fileindex : List ℕ) where
  -- the file that the call is about, when the friend is known
  module _ (f : ℕ) (known : checked env w friendid ≡ value f) where
    abbrev n : ℕ
    n = index_of fileindex

    -- The test that the file can be written may have made an empty one.
    abbrev untracked : List ℕ → List ℕ → Carrier × Code
    untracked filename filepath =
        let path = accepted_path env filename filepath in
        if env.writable path
        then refuse (act w (touched path)) (fail file_tracker_invalid)
        else refuse w (fail file_deny)

    accept_untracked :
        (filename filepath : List ℕ)
        → find_file_receiver w f n ≡ none
        → send_file_accept env w (some friendid) (some fileindex) (some filename) (some filepath)
          ≡ untracked filename filepath
    unfolding send_file_accept accept
    accept_untracked filename filepath r =
        elim (Bool-cases (env.writable (accepted_path env filename filepath))) [
          | inl e ↦ rw (known, accept, r, e) refl
          | inr e ↦ rw (known, accept, r, e) refl
        ]

    reject_untracked :
        find_file_receiver w f n ≡ none
        → send_file_reject env w (some friendid) (some fileindex)
          ≡ refuse w (fail file_tracker_invalid)
    unfolding send_file_reject
    reject_untracked r = rw (known, r, send_file_reject) refl

    -- For a file of a known friend that is not tracked, seek, accept, reject, pause and resume
    -- return -1 with an error, which for an accepted file that cannot be written is that of a
    -- denied file, and send nothing.
    pub untracked_refused :
        (filename filepath position : List ℕ)
        → find_file_receiver w f n ≡ none
        → find_either w f n ≡ none
        → (send_file_seek env w (some friendid) (some fileindex) (some position)
            ≡ refuse w (fail file_invalid))
          × (send_file_accept env w (some friendid) (some fileindex) (some filename) (some filepath)
              ≡ untracked filename filepath)
          × (send_file_reject env w (some friendid) (some fileindex)
              ≡ refuse w (fail file_tracker_invalid))
          × (send_file_pause env w (some friendid) (some fileindex)
              ≡ refuse w (fail file_tracker_invalid))
          × (send_file_resume env w (some friendid) (some fileindex)
              ≡ refuse w (fail file_tracker_invalid))
    unfolding send_file_seek send_file_pause send_file_resume
    untracked_refused filename filepath position r e = (
      rw (known, r, send_file_seek) refl,
      accept_untracked filename filepath r,
      reject_untracked r,
      rw (known, e, send_file_pause) refl,
      rw (known, e, send_file_resume) refl,
    )

    -- Rejecting a tracked file of a known friend sends one packet, forgets that file's tracker and
    -- no other one, leaves the senders alone, and fails only if the DHT does; no file has two
    -- trackers.
    pub send_file_reject_lem :
        {info : FileInfo}
        → IsDistinct w.file_receivers
        → lookup w.file_receivers f n ≡ some info
        → let (w', rc) = send_file_reject env w (some friendid) (some fileindex) in
          (w'.trace ≡ dht_reject f n ∷ w.trace)
          × (is_fail rc ≡ is_fail (env.dht (dht_reject f n)))
          × (w'.file_senders ≡ w.file_senders)
          × (w'.is_ready ≡ w.is_ready)
          × ((f' n' : ℕ)
              → lookup w'.file_receivers f' n'
                ≡ (if f == f' && n == n' then none else lookup w.file_receivers f' n'))
    unfolding send_file_reject dht_send
    send_file_reject_lem {info} d found =
        let (i, at, _) = find-lookup w.file_receivers f n found in
        rw (known, at, send_file_reject)
          (elim (Code-cases (env.dht (dht_reject f n))) [
            | inl (k, e) ↦
                rw (e, dht_send) (refl, refl, refl, refl, lookup-remove w.file_receivers f n i d at)
            | inr (k, e) ↦
                rw (e, dht_send) (refl, refl, refl, refl, lookup-remove w.file_receivers f n i d at)
          ])

checked-is_ready :
    (env : Env) (w w' : Carrier) (friendid : List ℕ)
    → w'.is_ready ≡ w.is_ready
    → checked env w' friendid ≡ checked env w friendid
unfolding checked
checked-is_ready env w w' friendid e = rw e refl

-- A second rejection of a file that was tracked once, from a known friend, is refused with the
-- error of an invalid tracker.
pub send_file_reject-twice :
    (env : Env) (w : Carrier) (friendid fileindex : List ℕ) (f : ℕ) {info : FileInfo}
    → checked env w friendid ≡ value f
    → IsDistinct w.file_receivers
    → lookup w.file_receivers f (index_of fileindex) ≡ some info
    → let (w', rc) = send_file_reject env w (some friendid) (some fileindex) in
      send_file_reject env w' (some friendid) (some fileindex)
      ≡ refuse w' (fail file_tracker_invalid)
send_file_reject-twice env w friendid fileindex f {info} known d found =
    let w' = (send_file_reject env w (some friendid) (some fileindex)).0 in
    let done = send_file_reject_lem env w friendid fileindex f known d found in
    let n = index_of fileindex in
    let gone : lookup w'.file_receivers f n ≡ none =
      done.4 f n ∙ rw (==_of_eq f f refl, ==_of_eq n n refl) refl in
    reject_untracked env w' friendid fileindex f (checked-is_ready env w w' friendid done.3 ∙ known)
      (find_of_lookup-none w'.file_receivers f n gone)

-- ===== src/Carrier/Files/Transfer.antt =====
-- A file transfer of carrier/IOEX_carrier.c from end to end: the file that is offered is the one that
-- is read, the path that is accepted is the one that is written, and a canceled file is deleted.
use my_test_module.Prelude.{
  ℕ, ◌-◌, ◌^◌, ◌<◌, ◌≡◌, ◌≢◌, refl, sym, ap, ◌∙◌, true, List, [], ◌∷◌, ◌++◌, none, some, arith,
  length, if◌then◌else◌, ==_of_eq, ==_of_ne, take_all,
}
use my_test_module.Prelude.Returns.{value}
use my_test_module.Carrier.CString.{slash, ends_with}
use my_test_module.Carrier.CString.Laws.{IsString, c_string-strncpy}
use my_test_module.Carrier.Files.{
  FileInfo, Carrier, Env, act, file_accepted, file_chunk_receive, dht_request, dht_accept, appended,
  touched,
}
use my_test_module.Carrier.Files.Tracker.{
  get_fullpath, find_file_receiver, add_new_file_sender, new_sender, with_path,
  update_file_receiver_path, update_file_tracker,
}
use my_test_module.Carrier.Files.Tracker.Laws.{lookup, lookup-append, lookup-update, find-lookup}
use my_test_module.Carrier.Files.FullPath.{
  IsPlain, get_fullpath-new_sender, get_fullpath_of, joined, length-joined,
}
use my_test_module.Carrier.Files.Notify.{
  notify_file_accepted_cb, notify_file_chunk_request_cb, send_chunk, notify_file_chunk_receive_cb,
}
use my_test_module.Carrier.Files.Send.{
  index_of, checked, dht_send, accept, accepted_path, send_file_request, send_file_accept,
}

-- the answer to a request for a chunk, and a chunk that arrives, by the path of the tracker
module _ (env : Env) (w : Carrier) (f n position count : ℕ) {userid path : List ℕ}
    (friend : env.friends_get f ≡ some userid) (pos : count ≢ 0) where
  chunk_request_lem :
      {contents : List ℕ}
      → get_fullpath (lookup w.file_senders f n) ≡ some path
      → env.readable path ≡ some contents
      → notify_file_chunk_request_cb env w f n position count
        ≡ send_chunk env w userid f n (some path) contents position count
  unfolding notify_file_chunk_request_cb lookup
  chunk_request_lem e readable =
      rw (friend, notify_file_chunk_request_cb, e, readable, e, ==_of_ne count 0 pos) refl

  chunk_receive_lem :
      (chunk : List ℕ)
      → get_fullpath (lookup w.file_receivers f n) ≡ some path
      → env.writable path ≡ true
      → notify_file_chunk_receive_cb env w f n position chunk count
        ≡ act (act w (appended path chunk)) (file_chunk_receive userid n (some path) position count)
  unfolding notify_file_chunk_receive_cb lookup
  chunk_receive_lem chunk e writable =
      rw (friend, notify_file_chunk_receive_cb, e, writable, ==_of_ne count 0 pos) refl

accepted_lem :
    (env : Env) (w : Carrier) (f n : ℕ) {userid : List ℕ} {info : FileInfo}
    → env.friends_get f ≡ some userid
    → lookup w.file_senders f n ≡ some info
    → notify_file_accepted_cb env w f n ≡ act w (file_accepted userid n)
unfolding notify_file_accepted_cb
accepted_lem env w f n friend found =
    let (i, at, _) = find-lookup w.file_senders f n found in
    rw (friend, notify_file_accepted_cb, at) refl

-- the sender's side, once its request has been taken
module _ (env : Env) (w : Carrier) (friendid fullpath : List ℕ) (f k : ℕ) (info : FileInfo)
    (known : checked env w friendid ≡ value f) (taken : env.dht (dht_request f fullpath) ≡ value k)
    (numbered : env.file_number f fullpath ≢ 2 ^ 32 - 1) (memory : env.memory ≡ some info) where
  abbrev n : ℕ
  n = env.file_number f fullpath

  abbrev requested : Carrier
  requested = record w {
    file_senders = w.file_senders ++ new_sender info f n fullpath ∷ [];
    trace = dht_request f fullpath ∷ w.trace;
  }

  send_file_request_lem :
      send_file_request env w (some friendid) (some fullpath) ≡ (requested, value 0)
  unfolding send_file_request add_new_file_sender
  send_file_request_lem =
      rw (known, send_file_request, taken, memory, add_new_file_sender, ==_of_ne _ _ numbered) refl

  -- no older tracker has the number
  lookup-requested :
      lookup w.file_senders f n ≡ none
      → lookup requested.file_senders f n ≡ some (new_sender info f n fullpath)
  lookup-requested fresh =
      lookup-append w.file_senders (new_sender info f n fullpath) f n
      ∙ rw (fresh, ==_of_eq f f refl, ==_of_eq n n refl) refl

  -- After a request to send a plain path of less than 512 bytes to a known friend, which the DHT
  -- takes under a number that no older tracker of the friend has, the friend's acceptance reaches
  -- the application, and its request for a chunk of a file that can be read is answered from the
  -- file at that path; for a chunk that is not empty, with memory for the tracker.
  pub send_file_request-chunk :
      (userid contents : List ℕ) (position length' : ℕ)
      → IsString fullpath
      → length fullpath < 512
      → IsPlain fullpath
      → lookup w.file_senders f n ≡ none
      → env.friends_get f ≡ some userid
      → env.readable fullpath ≡ some contents
      → length' ≢ 0
      → let (w', rc) = send_file_request env w (some friendid) (some fullpath) in
        (rc ≡ value 0)
        × (notify_file_accepted_cb env w' f n ≡ act w' (file_accepted userid n))
        × (notify_file_chunk_request_cb env w' f n position length'
            ≡ send_chunk env w' userid f n (some fullpath) contents position length')
  send_file_request-chunk userid contents position length' string short plain fresh friend readable
        pos =
      let found = lookup-requested fresh in
      rw send_file_request_lem (
        refl,
        accepted_lem env requested f n friend found,
        chunk_request_lem env requested f n position length' friend pos
            (ap get_fullpath found ∙ get_fullpath-new_sender info f n fullpath string short plain)
            readable,
      )

-- the receiver's side, when the application accepts an offered file
module _ (env : Env) (w : Carrier) (friendid fileindex filename filepath : List ℕ) (f k : ℕ)
    {info : FileInfo} (known : checked env w friendid ≡ value f)
    (offered : lookup w.file_receivers f (index_of fileindex) ≡ some info)
    (writable : env.writable (accepted_path env filename filepath) ≡ true)
    (taken : env.dht (dht_accept f (index_of fileindex)) ≡ value k) where
  abbrev accepted : ℕ → Carrier
  accepted i = record w {
    file_receivers = update_file_tracker w.file_receivers i (with_path filename filepath);
    trace =
        dht_accept f (index_of fileindex) ∷ touched (accepted_path env filename filepath) ∷ w.trace;
  }

  send_file_accept_lem :
      (i : ℕ)
      → find_file_receiver w f (index_of fileindex) ≡ some i
      → send_file_accept env w (some friendid) (some fileindex) (some filename) (some filepath)
        ≡ (accepted i, value 0)
  unfolding send_file_accept accept update_file_receiver_path dht_send
  send_file_accept_lem i at =
      rw (known, accept, writable, at, at, update_file_receiver_path, dht_send, taken) refl

  -- The path that was found writable is the path of the tracker.
  accepted-path :
      IsString filename
      → IsString filepath
      → length filename < 511
      → length filepath < 511
      → 0 < length filepath
      → get_fullpath (some (with_path filename filepath info))
        ≡ some (accepted_path env filename filepath)
  accepted-path sn sp ln lp pos =
      let ne : length filepath ≢ 0 = omega arith in
      let whole : joined filepath filename ≡ (
          if ends_with filepath slash then filepath ++ filename else filepath ++ slash ∷ filename) =
        rw (==_of_ne _ 0 ne) refl in
      get_fullpath_of (with_path filename filepath info)
        (c_string-strncpy info.file_path filepath 511 sp lp)
        (c_string-strncpy info.file_name filename 511 sn ln) (omega arith)
      ∙ ap some (
          whole
          ∙ sym (take_all 1023 _ (omega (arith, length-joined filepath filename, ap length whole))))

  -- After an offered file is accepted under a name and a path of less than 511 bytes each, the path
  -- not empty, where the file can be written and the DHT takes the packet, a chunk that arrives for
  -- it and is not empty is appended to the very path that was tested, and the application is told.
  pub send_file_accept-chunk :
      (userid chunk : List ℕ) (position count : ℕ)
      → IsString filename
      → IsString filepath
      → length filename < 511
      → length filepath < 511
      → 0 < length filepath
      → env.friends_get f ≡ some userid
      → count ≢ 0
      → let (w', rc) =
          send_file_accept env w (some friendid) (some fileindex) (some filename) (some filepath) in
        let path = accepted_path env filename filepath in
        (rc ≡ value 0)
        × (notify_file_chunk_receive_cb env w' f (index_of fileindex) position chunk count
            ≡ act
                (act w' (appended path chunk))
                (file_chunk_receive userid (index_of fileindex) (some path) position count))
  send_file_accept-chunk userid chunk position count sn sp ln lp some_path friend pos =
      let n = index_of fileindex in
      let (i, at, _) = find-lookup w.file_receivers f n offered in
      let found : lookup (accepted i).file_receivers f n ≡ some (with_path filename filepath info) =
        lookup-update w.file_receivers f n i (with_path filename filepath) (λ a. (refl, refl)) at
          offered f n
        ∙ rw (==_of_eq f f refl, ==_of_eq n n refl) refl in
      rw (send_file_accept_lem i at) (
        refl,
        chunk_receive_lem env (accepted i) f n position count friend pos chunk
            (ap get_fullpath found ∙ accepted-path sn sp ln lp some_path) writable,
      )

-- ===== src/Carrier/Files/Cancel.antt =====
-- Either side cancels a file transfer of carrier/IOEX_carrier.c.
use my_test_module.Prelude.{
  ℕ, ◌≡◌, refl, sym, ap, ◌∙◌, true, false, ◌&&◌, List, ◌∷◌, none, some, ◌==◌, if◌then◌else◌, inl,
  inr,
}
use my_test_module.Prelude.Returns.{Code, value, is_fail, Code-cases}
use my_test_module.Carrier.Files.{
  FileInfo, Carrier, Env, Action, act, file_canceled, dht_cancel, unlinked,
}
use my_test_module.Carrier.Files.Tracker.{is_sender, get_fullpath, remove_tracker}
use my_test_module.Carrier.Files.Tracker.Laws.{lookup, lookup-remove, IsDistinct, find-lookup}
use my_test_module.Carrier.Files.Notify.{cancel, notify_file_canceled_cb}
use my_test_module.Carrier.Files.Send.{index_of, checked, dht_send, send_file_cancel}

-- The file is forgotten, and no other one.
abbrev pub Forgets : ℕ → ℕ → List FileInfo → List FileInfo → Type 0
Forgets f n fts fts' =
    (f' n' : ℕ) → lookup fts' f' n' ≡ (if f == f' && n == n' then none else lookup fts f' n')

dht_send-state :
    (env : Env) (w : Carrier) (packet : Action)
    → let (w', rc) = dht_send env w packet in
      (w'.trace ≡ packet ∷ w.trace)
      × (w'.file_senders ≡ w.file_senders)
      × (w'.file_receivers ≡ w.file_receivers)
      × (is_fail rc ≡ is_fail (env.dht packet))
unfolding dht_send
dht_send-state env w packet = elim (Code-cases (env.dht packet)) [
  | inl (k, e) ↦ rw (dht_send, e) (refl, refl, refl, refl)
  | inr (k, e) ↦ rw (dht_send, e) (refl, refl, refl, refl)
]

module _ (env : Env) (w : Carrier) (friendid fileindex userid : List ℕ) (f : ℕ)
    (known : checked env w friendid ≡ value f) (friend : env.friends_get f ≡ some userid) where
  abbrev n : ℕ
  n = index_of fileindex

  abbrev sent : Carrier × Code
  sent = send_file_cancel env w (some friendid) (some fileindex)

  abbrev heard : Carrier
  heard = notify_file_canceled_cb env w f n

  send_file_cancel_lem : sent ≡ dht_send env (cancel w f n) (dht_cancel f n)
  unfolding send_file_cancel
  send_file_cancel_lem = rw (send_file_cancel, known) refl

  notify_file_canceled_lem : heard ≡ act (cancel w f n) (file_canceled userid n)
  unfolding notify_file_canceled_cb
  notify_file_canceled_lem = rw (notify_file_canceled_cb, friend) refl

  -- Both leave what `cancel` leaves, and tell one neighbour of it.
  told :
      (c : Carrier)
      → cancel w f n ≡ c
      → ((sent.0.trace ≡ dht_cancel f n ∷ c.trace)
          × (sent.0.file_senders ≡ c.file_senders)
          × (sent.0.file_receivers ≡ c.file_receivers)
          × (is_fail sent.1 ≡ is_fail (env.dht (dht_cancel f n))))
        × (heard ≡ act c (file_canceled userid n))
  told c e =
      rw (send_file_cancel_lem, notify_file_canceled_lem, e)
        (dht_send-state env c (dht_cancel f n), refl)

  -- When a file that is being received is canceled, by us or by the friend, its partial file is
  -- deleted and its tracker forgotten, and no other one; we tell the friend, and the application is
  -- told by the friend. The friend is known, the file is tracked, no received file has two
  -- trackers, and its number is that of a received file.
  pub cancel_receiver :
      {info : FileInfo} {path : List ℕ}
      → is_sender n ≡ false
      → IsDistinct w.file_receivers
      → lookup w.file_receivers f n ≡ some info
      → get_fullpath (some info) ≡ some path
      → (sent.0.trace ≡ dht_cancel f n ∷ unlinked path ∷ w.trace)
        × (heard.trace ≡ file_canceled userid n ∷ unlinked path ∷ w.trace)
        × Forgets f n w.file_receivers sent.0.file_receivers
        × (heard.file_receivers ≡ sent.0.file_receivers)
        × (sent.0.file_senders ≡ w.file_senders)
        × (heard.file_senders ≡ w.file_senders)
  unfolding cancel
  cancel_receiver {info} {path} side d found full =
      let (i, at, is) = find-lookup w.file_receivers f n found in
      let canceled : cancel w f n ≡ record w {
        file_receivers = remove_tracker w.file_receivers i;
        trace = unlinked path ∷ w.trace;
      } =
        rw (side, at, is, full) refl in
      let (by_us, by_peer) = told _ canceled in
      (
        by_us.0,
        ap (λ (c : Carrier). c.trace) by_peer,
        λ f' n'.
            ap (λ fts. lookup fts f' n') by_us.2 ∙ lookup-remove w.file_receivers f n i d at f' n',
        ap (λ (c : Carrier). c.file_receivers) by_peer ∙ sym by_us.2,
        by_us.1,
        ap (λ (c : Carrier). c.file_senders) by_peer,
      )

  -- When a file that is being sent is canceled, by us or by the friend, its tracker is forgotten,
  -- and no other one, and no file is deleted; we tell the friend, and the application is told by
  -- the friend. The friend is known, the file is tracked, no sent file has two trackers, and its
  -- number is that of a sent file.
  pub cancel_sender :
      {info : FileInfo}
      → is_sender n ≡ true
      → IsDistinct w.file_senders
      → lookup w.file_senders f n ≡ some info
      → (sent.0.trace ≡ dht_cancel f n ∷ w.trace)
        × (heard.trace ≡ file_canceled userid n ∷ w.trace)
        × Forgets f n w.file_senders sent.0.file_senders
        × (heard.file_senders ≡ sent.0.file_senders)
        × (sent.0.file_receivers ≡ w.file_receivers)
        × (heard.file_receivers ≡ w.file_receivers)
  unfolding cancel
  cancel_sender {info} side d found =
      let (i, at, _) = find-lookup w.file_senders f n found in
      let canceled : cancel w f n ≡ record w { file_senders = remove_tracker w.file_senders i } =
        rw (side, at) refl in
      let (by_us, by_peer) = told _ canceled in
      (
        by_us.0,
        ap (λ (c : Carrier). c.trace) by_peer,
        λ f' n'.
            ap (λ fts. lookup fts f' n') by_us.1 ∙ lookup-remove w.file_senders f n i d at f' n',
        ap (λ (c : Carrier). c.file_senders) by_peer ∙ sym by_us.1,
        by_us.2,
        ap (λ (c : Carrier). c.file_receivers) by_peer,
      )

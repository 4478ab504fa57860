-- ===== src/Session/Multiplex/Timer/Laws.antt =====
-- Which channels the checkpoint of session/multiplex_handler.c closes.
use my_test_module.Prelude.{
  ℕ, ◌≡◌, ◌≢◌, refl, sym, ap, ◌∙◌, map, true, false, List, [], ◌∷◌, ◌++◌, none, inl, inr, All,
  if◌then◌else◌, Bool-cases, ==_of_eq, ==_of_ne,
}
use mathlib.Core.List.{reverse_aux, reverse, reverse_aux-eq, append_assoc, append-nil}
use my_test_module.Session.PacketType
use my_test_module.Session.Channels.{Channel, Channels, Timeval, channels_remove, channels_update}
use my_test_module.Session.Channels.Laws.{IsDistinct}
use my_test_module.Session.Multiplex.{
  MultiplexHandler, Env, Event, notify, send_packet, drop_channel, channel_closed, timed_out,
}
use my_test_module.Session.Multiplex.Validity.{
  IsValid, Owns, Agree-update, Agree-drop, channels-drop, events-drop,
}
use my_test_module.Session.Multiplex.Client.{is_zero}
use my_test_module.Session.Multiplex.Timer.{
  interval, reaches, is_expired, keepalive_interval, keep_alive, check_channel, check_each,
  checkpoint,
}

abbrev pub ids : Channels → List ℕ
ids cs = map (λ (c : Channel). c.id) cs

-- the channels that stay, and those that are closed
abbrev pub kept : Timeval → Channels → Channels
kept now [] = []
kept now (c ∷ cs) = if is_expired now c then kept now cs else c ∷ kept now cs

abbrev pub lapsed : Timeval → Channels → Channels
lapsed now [] = []
lapsed now (c ∷ cs) = if is_expired now c then c ∷ lapsed now cs else lapsed now cs

abbrev pub closings : Channels → List Event
closings cs = map (λ (c : Channel). channel_closed c.id timed_out) cs

-- no channel before another has its id
before_ne :
    (done : Channels) (ch : Channel) (cs : Channels)
    → IsDistinct (done ++ ch ∷ cs)
    → All (λ (d : Channel). d.id ≢ ch.id) done
before_ne [] ch cs d = tt
before_ne (c ∷ done) ch cs (all, d) = (among done all, before_ne done ch cs d)
  where
    among : (done : Channels) → All (λ (e : Channel). c.id ≢ e.id) (done ++ ch ∷ cs) → c.id ≢ ch.id
    among [] (ne, all) = ne
    among (e ∷ es) (ne, all) = among es all

remove-append :
    (done : Channels) (ch : Channel) (cs : Channels)
    → All (λ (d : Channel). d.id ≢ ch.id) done
    → channels_remove (done ++ ch ∷ cs) ch.id ≡ done ++ cs
unfolding channels_remove
remove-append [] ch cs tt' = rw (==_of_eq ch.id ch.id refl) refl
remove-append (c ∷ done) ch cs (ne, all) =
    rw (==_of_ne c.id ch.id ne) (ap (λ t. c ∷ t) (remove-append done ch cs all))

update-append :
    (done : Channels) (ch ch' : Channel) (cs : Channels)
    → ch'.id ≡ ch.id
    → All (λ (d : Channel). d.id ≢ ch.id) done
    → channels_update (done ++ ch ∷ cs) ch' ≡ done ++ ch' ∷ cs
unfolding channels_update
update-append [] ch ch' cs e all = rw (==_of_eq ch.id ch'.id (sym e)) refl
update-append (c ∷ done) ch ch' cs e (ne, all) =
    rw (==_of_ne c.id ch'.id (λ s. ne (s ∙ e)))
      (ap (λ t. c ∷ t) (update-append done ch ch' cs e all))

-- a channel in the table owns its id
Owns-of_append :
    (h : MultiplexHandler) (done : Channels) (ch : Channel) (cs : Channels)
    → All (λ (c : Channel). Owns h.channel_ids c.id) (done ++ ch ∷ cs)
    → Owns h.channel_ids ch.id
Owns-of_append h [] ch cs (own, all) = own
Owns-of_append h (c ∷ done) ch cs (own, all) = Owns-of_append h done ch cs all

ids-snoc :
    (done : Channels) (ch : Channel) (ns : List ℕ)
    → ids (done ++ ch ∷ []) ++ ns ≡ ids done ++ ch.id ∷ ns
ids-snoc [] ch ns = refl
ids-snoc (c ∷ done) ch ns = ap (λ t. c.id ∷ t) (ids-snoc done ch ns)

module _ (env : Env) (now : Timeval) where
  keep_alive_lem :
      (h : MultiplexHandler) (done : Channels) (ch : Channel) (cs : Channels)
      → IsValid h
      → h.channels ≡ done ++ ch ∷ cs
      → let h' = keep_alive env now h ch in
        ((ch' : Channel) × (ch'.id ≡ ch.id) × (h'.channels ≡ done ++ ch' ∷ cs))
        × (h'.events ≡ h.events)
        × IsValid h'
  unfolding keep_alive send_packet
  keep_alive_lem h done ch cs v e =
      elim (Bool-cases (reaches (interval now ch.local_timestamp) keepalive_interval)) [
        | inr r ↦ rw (keep_alive, r) ((ch, refl, e), refl, v)
        | inl r ↦
            elim (Bool-cases (
              is_zero
                (send_packet env h PacketType.channel_keep_alive 0 ch.id ch.remote_id none).1)) [
                  | inr z ↦ rw (keep_alive, r, z) ((ch, refl, e), refl, v)
                  | inl z ↦
                      let own = Owns-of_append h done ch cs (rw e at v.owned) in
                      let ne = before_ne done ch cs (rw e at v.distinct) in
                      let ch' = record ch { local_timestamp = now } in
                      rw (keep_alive, r, z)
                        (
                          (
                            ch',
                            refl,
                            ap (λ t. channels_update t ch') e
                                ∙ update-append done ch ch' cs refl ne,
                          ),
                          refl,
                          Agree-update ch' v own,
                        )
                ]
      ]

  check_expired :
      (h : MultiplexHandler) (ch : Channel)
      → is_expired now ch ≡ true
      → check_channel env now h ch
        ≡ drop_channel env (notify h (channel_closed ch.id timed_out)) ch.id
  unfolding check_channel
  check_expired h ch x = rw x refl

  check_alive :
      (h : MultiplexHandler) (ch : Channel)
      → is_expired now ch ≡ false
      → check_channel env now h ch ≡ keep_alive env now h ch
  unfolding check_channel
  check_alive h ch x = rw x refl

  check_each-cons :
      (h : MultiplexHandler) (ch : Channel) (cs : Channels)
      → check_each env now (ch ∷ cs) h ≡ check_each env now cs (check_channel env now h ch)
  unfolding check_each
  check_each-cons h ch cs = refl

  check_each-nil : (h : MultiplexHandler) → check_each env now [] h ≡ h
  unfolding check_each
  check_each-nil h = refl

  -- What the rounds for the channels `cs`, the last ones of the table, leave.
  abbrev Checked : Channels → Channels → MultiplexHandler → MultiplexHandler → Type 0
  Checked done cs h h' =
      (ids h'.channels ≡ ids done ++ ids (kept now cs))
      × (h'.events ≡ reverse_aux (closings (lapsed now cs)) h.events)
      × IsValid h'

  check_each_lem :
      (cs : Channels) (h : MultiplexHandler) (done : Channels)
      → IsValid h
      → h.channels ≡ done ++ cs
      → Checked done cs h (check_each env now cs h)
  check_each_lem [] h done v e =
      rw (check_each-nil h) (ap ids (e ∙ append-nil done) ∙ sym (append-nil (ids done)), refl, v)
  check_each_lem (ch ∷ cs) h done v e = elim (Bool-cases (is_expired now ch)) [
    | inl x ↦
        let told = notify h (channel_closed ch.id timed_out) in
        let h' = drop_channel env told ch.id in
        let own = Owns-of_append h done ch cs (rw e at v.owned) in
        let ne = before_ne done ch cs (rw e at v.distinct) in
        let rest : h'.channels ≡ done ++ cs =
          channels-drop env told ch.id
          ∙ ap (λ t. channels_remove t ch.id) e
          ∙ remove-append done ch cs ne in
        let (same, events, valid) =
          check_each_lem cs h' done (Agree-drop env told ch.id v own) rest in
        rw (check_each-cons h ch cs, check_expired h ch x, x)
          (
            same,
            events ∙ ap (reverse_aux (closings (lapsed now cs))) (events-drop env told ch.id),
            valid,
          )
    | inr x ↦
        let ((ch', id, channels), same_events, valid') = keep_alive_lem h done ch cs v e in
        let (same, events, valid) =
          check_each_lem cs (keep_alive env now h ch) (done ++ ch' ∷ []) valid'
            (channels ∙ sym (append_assoc done (ch' ∷ []) cs)) in
        rw (check_each-cons h ch cs, check_alive h ch x, x)
          (
            same
                ∙ ids-snoc done ch' (ids (kept now cs))
                ∙ ap (λ n. ids done ++ n ∷ ids (kept now cs)) id,
            events ∙ ap (reverse_aux (closings (lapsed now cs))) same_events,
            valid,
          )
  ]

  -- On a valid handler, checkpoint closes exactly the channels whose timeout, or the limit of the
  -- keep-alive, has run out, each with the reason timed_out and in the order of the table; the
  -- channels that stay keep their order and their ids, and the handler stays valid.
  pub checkpoint_lem :
      (h : MultiplexHandler)
      → IsValid h
      → let h' = checkpoint env now h in
        (ids h'.channels ≡ ids (kept now h.channels))
        × (h'.events ≡ reverse (closings (lapsed now h.channels)) ++ h.events)
        × IsValid h'
  unfolding checkpoint
  checkpoint_lem h v =
      let (same, events, valid) = check_each_lem h.channels h [] v refl in
      (same, events ∙ reverse_aux-eq (closings (lapsed now h.channels)) h.events, valid)

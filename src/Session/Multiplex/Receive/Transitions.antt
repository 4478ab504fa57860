-- ===== src/Session/Multiplex/Receive/Transitions.antt =====
-- The states that a packet may take a channel through.
use my_test_module.Prelude.{
  All-map, ℕ, ◌≡◌, ◌≢◌, refl, sym, ap, ◌∙◌, true, false, not, ◌&&◌, List, Option, none, some, ◌==◌,
  if◌then◌else◌, if_both, ltb, length, inl, inr, Bool-cases,
}
use mathlib.Core.Path.{subst}
use mathlib.Core.Bool.{true≢false}
use my_test_module.Prelude.Returns.{Code, value, fail, is_fail}
use my_test_module.Common.IdsHeap.{IdsHeap, ids_heap_alloc}
use my_test_module.Common.IdsHeap.Alloc.{in_use, Allocated, ids_heap_alloc_lem}
use my_test_module.Session.Packet.{ProtocolBuffer, read_header}
use my_test_module.Session.PacketType
use my_test_module.Session.Channels.{
  Channel, ChannelType, ChannelStatus, opening, opened, pending, closing, Channels, Timeval,
  channels_put, channels_get, channels_remove, channels_update, is_opening, is_opened, is_pending,
}
use my_test_module.Session.Channels.Laws.{id-get}
use my_test_module.Session.Channels.Steps.{
  Moves, stays, opens, pends, resumes, Steps, Steps-refl, Steps-update, Steps-remove,
  Steps-update-put, Steps-remove-put, get_of_All,
}
use my_test_module.Session.Multiplex.{
  MultiplexHandler, Env, notify, send_packet, drop_channel, touch, ask_open, channel_closed,
  channel_data, normal, error,
}
use my_test_module.Session.Multiplex.Validity.{Owns, IsValid, channels-drop, Owns-alloc}
use my_test_module.Session.Multiplex.Receive.{
  confirm_open, open_request, new_channel, confirmation, received_data, received_pending,
  received_resume, dispatch, requested_type, route, notify_packet,
}

opening_of_test : (s : ChannelStatus) → is_opening s ≡ true → s ≡ opening
opening_of_test opening e = refl
opening_of_test opened e = absurd (true≢false (sym e))
opening_of_test pending e = absurd (true≢false (sym e))
opening_of_test closing e = absurd (true≢false (sym e))

opened_of_test : (s : ChannelStatus) → is_opened s ≡ true → s ≡ opened
opened_of_test opening e = absurd (true≢false (sym e))
opened_of_test opened e = refl
opened_of_test pending e = absurd (true≢false (sym e))
opened_of_test closing e = absurd (true≢false (sym e))

pending_of_test : (s : ChannelStatus) → is_pending s ≡ true → s ≡ pending
pending_of_test opening e = absurd (true≢false (sym e))
pending_of_test opened e = absurd (true≢false (sym e))
pending_of_test pending e = refl
pending_of_test closing e = absurd (true≢false (sym e))

-- what a handler leaves of the table `cs`
abbrev After : Channels → MultiplexHandler → Type 0
After cs h = Steps cs h.channels

module _ (env : Env) (now : Timeval) where
  module _ (h : MultiplexHandler) (v : IsValid h) (ch : Channel)
      (at : channels_get h.channels ch.id ≡ some ch) where
    dropped :
        (g : MultiplexHandler)
        → g.channels ≡ h.channels
        → After h.channels (drop_channel env g ch.id)
    dropped g e =
        subst (Steps h.channels)
          (sym (channels-drop env g ch.id ∙ ap (λ t. channels_remove t ch.id) e))
          (Steps-remove h.channels ch.id v.distinct)

    confirmation-Steps : (pb : ProtocolBuffer) → After h.channels (confirmation env now h ch pb)
    unfolding confirmation
    confirmation-Steps pb = elim (Bool-cases (is_opening ch.status)) [
      | inr e ↦ rw e (Steps-refl h.channels)
      | inl e ↦ rw e (
          if_both (After h.channels) (not (pb.remote_channel_id == 0))
            (Steps-update h.channels ch
              (touch (record ch { status = opened; remote_id = pb.remote_channel_id }) now) at
              (subst (λ s. Moves s opened) (sym (opening_of_test ch.status e)) opens, refl))
            (dropped (notify h (channel_closed ch.id error)) refl))
    ]

    received_data-Steps : (payload : List ℕ) → After h.channels (received_data env now h ch payload)
    unfolding received_data
    received_data-Steps payload =
        if_both (After h.channels) (not (is_pending ch.status) && not (is_opened ch.status))
          (Steps-refl h.channels)
          (if_both (After h.channels) (not (env.consume ch payload))
            (dropped (notify (notify h (channel_data ch.id payload)) (channel_closed ch.id error))
              refl)
            (Steps-update h.channels ch (touch ch now) at (stays ch.status, refl)))

    received_pending-Steps : After h.channels (received_pending env now h ch)
    unfolding received_pending
    received_pending-Steps = elim (Bool-cases (is_opened ch.status)) [
      | inr e ↦ rw e (Steps-refl h.channels)
      | inl e ↦ rw e (
          Steps-update h.channels ch (touch (record ch { status = pending }) now) at
            (subst (λ s. Moves s pending) (sym (opened_of_test ch.status e)) pends, refl))
    ]

    received_resume-Steps : After h.channels (received_resume env now h ch)
    unfolding received_resume
    received_resume-Steps = elim (Bool-cases (is_pending ch.status)) [
      | inr e ↦ rw e (Steps-refl h.channels)
      | inl e ↦ rw e (
          Steps-update h.channels ch (touch (record ch { status = opened }) now) at
            (subst (λ s. Moves s opened) (sym (pending_of_test ch.status e)) resumes, refl))
    ]

    dispatch-Steps :
        (pb : ProtocolBuffer) (payload : List ℕ)
        → After h.channels (dispatch env now h ch pb payload)
    unfolding dispatch
    dispatch-Steps pb payload =
        let P = After h.channels in
        if_both P (pb.kind == PacketType.channel_open_confirmation) (confirmation-Steps pb) (
          if_both P (pb.kind == PacketType.channel_data) (received_data-Steps payload) (
            if_both P (pb.kind == PacketType.channel_keep_alive)
              (Steps-update h.channels ch (record ch { remote_timestamp = now }) at
                (stays ch.status, refl))
              (if_both P (pb.kind == PacketType.channel_pending) received_pending-Steps (
                if_both P (pb.kind == PacketType.channel_resume) received_resume-Steps (
                  if_both P (pb.kind == PacketType.channel_close)
                    (dropped (notify h (channel_closed ch.id normal)) refl)
                    (Steps-refl h.channels))))))

  -- an id that is not in use is no channel's
  free_of_unused :
      (h : MultiplexHandler) (id : ℕ)
      → IsValid h
      → in_use h.channel_ids id ≡ false
      → channels_get h.channels id ≡ none
  free_of_unused h id v unused = get_of_All h.channels id (
      All-map (λ (c : Channel). Owns h.channel_ids c.id) (λ (c : Channel). id ≢ c.id) h.channels
        (λ c own e. true≢false (sym own.2 ∙ ap (in_use h.channel_ids) (sym e) ∙ unused)) v.owned)

  confirm_open-Steps :
      (cs : Channels) (h : MultiplexHandler) (ch : Channel) (cookie : List ℕ)
      → channels_get cs ch.id ≡ none
      → h.channels ≡ channels_put cs ch
      → After cs (confirm_open env now h ch cookie)
  unfolding confirm_open send_packet
  confirm_open-Steps cs h ch cookie free e =
      let ok = env.accept ch cookie in
      let (sent, rc) =
        send_packet env (notify h (ask_open ch.id cookie)) PacketType.channel_open_confirmation 0
          (if ok then ch.id else 0) ch.remote_id none in
      if_both (After cs) (not ok) (gone sent e) (
        if_both (After cs) (is_fail rc) (gone (notify sent (channel_closed ch.id error)) e) (
          subst (λ t. Steps cs (channels_update t (touch (record ch { status = opened }) now)))
            (sym e) (Steps-update-put cs ch free (touch (record ch { status = opened }) now) refl)))
    where
      gone :
          (g : MultiplexHandler)
          → g.channels ≡ channels_put cs ch
          → After cs (drop_channel env g ch.id)
      gone g same =
          subst (Steps cs)
            (sym (channels-drop env g ch.id ∙ ap (λ t. channels_remove t ch.id) same))
            (Steps-remove-put cs ch free)

  open_request-Steps :
      (h : MultiplexHandler) (kind : ChannelType) (pb : ProtocolBuffer) (payload : List ℕ)
      → IsValid h
      → After h.channels (open_request env now h kind pb payload)
  unfolding open_request send_packet
  open_request-Steps h kind pb payload v =
      if_both (After h.channels) (not env.memory) (Steps-refl h.channels)
        (answered (ids_heap_alloc h.channel_ids) refl)
    where
      answered :
          (r : IdsHeap × Code)
          → ids_heap_alloc h.channel_ids ≡ r
          → After h.channels (
              let (ids, cid) = r in
              let h' = record h { channel_ids = ids } in
              elim cid [
                | fail e ↦ (send_packet env h' PacketType.channel_open_confirmation 0 0 0 none).0
                | value id ↦
                    let ch = new_channel kind id pb.remote_channel_id 0 now in
                    confirm_open env now
                      (record h' { channels = channels_put h'.channels ch })
                      ch
                      payload
              ])
      answered (ids, fail e) r = Steps-refl h.channels
      answered (ids, value id) r =
          let ch = new_channel kind id pb.remote_channel_id 0 now in
          let (own, same) = Owns-alloc v r in
          let fresh : Allocated h.channel_ids (ids, value id) =
            rw r at (ids_heap_alloc_lem h.channel_ids v.ids_valid) in
          confirm_open-Steps h.channels
            (record h { channel_ids = ids; channels = channels_put h.channels ch }) ch payload
            (ap (channels_get h.channels) same ∙ free_of_unused h id v fresh.2) refl

  route-Steps :
      (h : MultiplexHandler) (pb : ProtocolBuffer) (payload : List ℕ)
      → IsValid h
      → After h.channels (route env now h pb payload)
  unfolding route
  route-Steps h pb payload v = if_both (After h.channels) _ (Steps-refl h.channels) (
      if_both (After h.channels) (pb.kind == PacketType.channel_open)
        (request (requested_type h pb.option))
        (addressed (channels_get h.channels pb.local_channel_id) refl))
    where
      request :
          (t : Option ChannelType)
          → After h.channels
              (elim t [ none ↦ h | some kind ↦ open_request env now h kind pb payload ])
      request none = Steps-refl h.channels
      request (some kind) = open_request-Steps h kind pb payload v

      addressed :
          (c : Option Channel)
          → channels_get h.channels pb.local_channel_id ≡ c
          → After h.channels (elim c [ none ↦ h | some ch ↦ dispatch env now h ch pb payload ])
      addressed none e = Steps-refl h.channels
      addressed (some ch) e =
          dispatch-Steps h v ch
            (ap (channels_get h.channels) (id-get h.channels pb.local_channel_id e) ∙ e) pb payload

  -- On a valid handler, whatever packet arrives and whatever the callbacks and the transport
  -- answer, a channel that is in the table before and after has kept its type and its state, or
  -- went from opening to opened, from opened to pending or from pending to opened; no other move
  -- happens.
  pub notify_packet-Steps :
      (h : MultiplexHandler) (bytes : List ℕ)
      → IsValid h
      → Steps h.channels (notify_packet env now h bytes).channels
  unfolding notify_packet
  notify_packet-Steps h bytes v =
      if_both (After h.channels) (ltb (length bytes) 8) (Steps-refl h.channels) (
        if_both (After h.channels) _ (Steps-refl h.channels)
          (route-Steps h (read_header bytes) _ v))

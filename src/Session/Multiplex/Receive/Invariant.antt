-- ===== src/Session/Multiplex/Receive/Invariant.antt =====
-- notify_packet keeps channels and ids in agreement.
use my_test_module.Prelude.{
  ℕ, ◌≡◌, refl, not, ◌&&◌, List, Option, none, some, ◌==◌, if◌then◌else◌, if_both, ltb, length,
}
use my_test_module.Prelude.Returns.{Code, value, fail}
use my_test_module.Common.IdsHeap.{IdsHeap, ids_heap_alloc}
use my_test_module.Session.Packet.{ProtocolBuffer, read_header}
use my_test_module.Session.PacketType
use my_test_module.Session.Channels.{
  Channel, ChannelType, opened, pending, Timeval, channels_put, channels_get, is_opening, is_opened,
  is_pending,
}
use my_test_module.Session.Multiplex.{
  MultiplexHandler, Env, Event, notify, send_packet, drop_channel, update_channel, touch, ask_open,
  channel_opened, channel_closed, channel_data, channel_pending, channel_resume, normal, error,
}
use my_test_module.Session.Multiplex.Validity.{
  Owns, IsValid, Agree-update, Agree-put, Agree-drop, Owns-get, Owns-alloc, Agree-refused,
}
use my_test_module.Session.Multiplex.Receive.{
  confirm_open, open_request, new_channel, confirmation, received_data, received_pending,
  received_resume, dispatch, requested_type, route, notify_packet,
}

module _ (env : Env) (now : Timeval) where
  module _ (h : MultiplexHandler) (v : IsValid h) (ch : Channel)
      (own : Owns h.channel_ids ch.id) where
    -- the three things that a handler does to a channel of the table
    drop_notified : (e : Event) → IsValid (drop_channel env (notify h e) ch.id)
    drop_notified e = Agree-drop env (notify h e) ch.id v own

    write_notified :
        (ch' : Channel) (e : Event) → ch'.id ≡ ch.id → IsValid (update_channel (notify h e) ch')
    write_notified ch' e same = Agree-update ch' v (rw same own)

    confirmation-IsValid : (pb : ProtocolBuffer) → IsValid (confirmation env now h ch pb)
    unfolding confirmation
    confirmation-IsValid pb = if_both IsValid (not (is_opening ch.status)) v (
        if_both IsValid (not (pb.remote_channel_id == 0))
          (write_notified
            (touch (record ch { status = opened; remote_id = pb.remote_channel_id }) now)
            (channel_opened ch.id) refl)
          (drop_notified (channel_closed ch.id error)))

    received_data-IsValid : (payload : List ℕ) → IsValid (received_data env now h ch payload)
    unfolding received_data
    received_data-IsValid payload =
        if_both IsValid (not (is_pending ch.status) && not (is_opened ch.status)) v (
          if_both IsValid (not (env.consume ch payload))
            (Agree-drop env
              (notify (notify h (channel_data ch.id payload)) (channel_closed ch.id error)) ch.id v
              own)
            (write_notified (touch ch now) (channel_data ch.id payload) refl))

    received_pending-IsValid : IsValid (received_pending env now h ch)
    unfolding received_pending
    received_pending-IsValid =
        if_both IsValid (not (is_opened ch.status)) v
          (write_notified (touch (record ch { status = pending }) now) (channel_pending ch.id) refl)

    received_resume-IsValid : IsValid (received_resume env now h ch)
    unfolding received_resume
    received_resume-IsValid =
        if_both IsValid (not (is_pending ch.status)) v
          (write_notified (touch (record ch { status = opened }) now) (channel_resume ch.id) refl)

    dispatch-IsValid :
        (pb : ProtocolBuffer) (payload : List ℕ) → IsValid (dispatch env now h ch pb payload)
    unfolding dispatch
    dispatch-IsValid pb payload =
        if_both IsValid (pb.kind == PacketType.channel_open_confirmation) (confirmation-IsValid pb)
          (if_both IsValid (pb.kind == PacketType.channel_data) (received_data-IsValid payload) (
            if_both IsValid (pb.kind == PacketType.channel_keep_alive)
              (Agree-update (record ch { remote_timestamp = now }) v own)
              (if_both IsValid (pb.kind == PacketType.channel_pending) received_pending-IsValid (
                if_both IsValid (pb.kind == PacketType.channel_resume) received_resume-IsValid (
                  if_both IsValid (pb.kind == PacketType.channel_close)
                    (drop_notified (channel_closed ch.id normal)) v)))))

    confirm_open-IsValid : (cookie : List ℕ) → IsValid (confirm_open env now h ch cookie)
    unfolding confirm_open send_packet
    confirm_open-IsValid cookie =
        let ok = env.accept ch cookie in
        let sent =
          (send_packet env (notify h (ask_open ch.id cookie)) PacketType.channel_open_confirmation 0
            (if ok then ch.id else 0) ch.remote_id none).0 in
        if_both IsValid (not ok) (Agree-drop env sent ch.id v own) (
          if_both IsValid _ (Agree-drop env (notify sent (channel_closed ch.id error)) ch.id v own)
            (Agree-update (touch (record ch { status = opened }) now) v own))

  open_request-IsValid :
      (h : MultiplexHandler) (kind : ChannelType) (pb : ProtocolBuffer) (payload : List ℕ)
      → IsValid h
      → IsValid (open_request env now h kind pb payload)
  unfolding open_request send_packet
  open_request-IsValid h kind pb payload v =
      if_both IsValid (not env.memory) v (answered (ids_heap_alloc h.channel_ids) refl)
    where
      answered :
          (r : IdsHeap × Code)
          → ids_heap_alloc h.channel_ids ≡ r
          → IsValid (
              let (ids, cid) = r in
              let h' = record h { channel_ids = ids } in
              elim cid [
                | fail e ↦ (send_packet env h' PacketType.channel_open_confirmation 0 0 0 none).0
                | value id ↦
                    let ch = new_channel kind id pb.remote_channel_id 0 now in
                    confirm_open env now
                      (record h' { channels = channels_put h'.channels ch })
                      ch
                      payload
              ])
      answered (ids, fail e) r = Agree-refused v r
      answered (ids, value id) r =
          let ch = new_channel kind id pb.remote_channel_id 0 now in
          let (own, same) = Owns-alloc v r in
          confirm_open-IsValid
            (record h { channel_ids = ids; channels = channels_put h.channels ch })
            (Agree-put ch v r same) ch (rw same own) payload

  route-IsValid :
      (h : MultiplexHandler) (pb : ProtocolBuffer) (payload : List ℕ)
      → IsValid h
      → IsValid (route env now h pb payload)
  unfolding route
  route-IsValid h pb payload v = if_both IsValid _ v (
      if_both IsValid (pb.kind == PacketType.channel_open) (request (requested_type h pb.option))
        (addressed (channels_get h.channels pb.local_channel_id) refl))
    where
      request :
          (t : Option ChannelType)
          → IsValid (elim t [ none ↦ h | some kind ↦ open_request env now h kind pb payload ])
      request none = v
      request (some kind) = open_request-IsValid h kind pb payload v

      addressed :
          (c : Option Channel)
          → channels_get h.channels pb.local_channel_id ≡ c
          → IsValid (elim c [ none ↦ h | some ch ↦ dispatch env now h ch pb payload ])
      addressed none e = v
      addressed (some ch) e = dispatch-IsValid h v ch (Owns-get pb.local_channel_id v e) pb payload

  -- Whatever packet arrives and whatever the callbacks and the transport answer, notify_packet
  -- keeps the ids of the channels distinct and each of them an id that the heap has handed out and
  -- not taken back.
  pub notify_packet-IsValid :
      (h : MultiplexHandler) (bytes : List ℕ) → IsValid h → IsValid (notify_packet env now h bytes)
  unfolding notify_packet
  notify_packet-IsValid h bytes v =
      if_both IsValid (ltb (length bytes) 8) v
        (if_both IsValid _ v (route-IsValid h (read_header bytes) _ v))

-- ===== src/Session/Multiplex/Client/Invariant.antt =====
-- The functions that the stream calls keep channels and ids in agreement.
use my_test_module.Prelude.{
  ℕ, ◌≡◌, refl, Bool, not, List, Option, none, some, ◌==◌, if◌then◌else◌, if_both,
}
use my_test_module.Prelude.Returns.{Code, value, fail, is_fail}
use my_test_module.Common.IdsHeap.{IdsHeap, ids_heap_alloc}
use my_test_module.Session.FlexBuffer.{FlexBuffer}
use my_test_module.Session.PacketType
use my_test_module.Session.Channels.{Channel, ChannelType, Timeval, channels_put, channels_get}
use my_test_module.Session.Multiplex.{
  MultiplexHandler, Env, notify, send_packet, drop_channel, channel_closed, normal,
}
use my_test_module.Session.Multiplex.Validity.{
  Owns, IsValid, Agree-update, Agree-put, Agree-drop, Owns-get, Owns-alloc, Agree-refused,
}
use my_test_module.Session.Multiplex.Receive.{new_channel}
use my_test_module.Session.Multiplex.Client.{
  open_channel, close_channel, write_channel, signal_channel, pend_channel, resume_channel,
  mark_sent, is_connected, cookie_buffer, type_option, limit_exceeded, not_exist, wrong_state,
  is_zero,
}

-- the state of a result keeps the invariant
abbrev KeepsValid : MultiplexHandler × Code → Type 0
KeepsValid r = IsValid r.0

module _ (env : Env) where
  -- open_channel keeps a valid handler valid, whether it succeeds or fails.
  pub open_channel-IsValid :
      (now : Timeval) (h : MultiplexHandler) (kind : ChannelType) (cookie : Option (List ℕ))
      (timeout : ℕ)
      → IsValid h
      → IsValid (open_channel env now h kind cookie timeout).0
  unfolding open_channel send_packet
  open_channel-IsValid now h kind cookie timeout v =
      if_both KeepsValid (not env.memory) v (answered (ids_heap_alloc h.channel_ids) refl)
    where
      answered :
          (r : IdsHeap × Code)
          → ids_heap_alloc h.channel_ids ≡ r
          → KeepsValid (
              let (ids, cid) = r in
              let h' = record h { channel_ids = ids } in
              elim cid [
                | fail e ↦ (h', fail limit_exceeded)
                | value id ↦
                    let ch = new_channel kind id 0 timeout now in
                    let put = record h' { channels = channels_put h'.channels ch } in
                    let (sent, rc) =
                      send_packet env put PacketType.channel_open
                        (type_option kind)
                        ch.id
                        ch.remote_id
                        (cookie_buffer cookie) in
                    if is_fail rc then (drop_channel env sent ch.id, rc) else (sent, value id)
              ])
      answered (ids, fail e) r = Agree-refused v r
      answered (ids, value id) r =
          let ch = new_channel kind id 0 timeout now in
          let put = record h { channel_ids = ids; channels = channels_put h.channels ch } in
          let (sent, rc) =
            send_packet env put PacketType.channel_open (type_option kind) ch.id ch.remote_id
              (cookie_buffer cookie) in
          let (own, same) = Owns-alloc v r in
          let valid = Agree-put ch v r same in
          if_both KeepsValid (is_fail rc) (Agree-drop env sent ch.id valid (rw same own)) valid

  -- close_channel keeps a valid handler valid, whether the channel exists or not.
  pub close_channel-IsValid :
      (h : MultiplexHandler) (cid : ℕ) → IsValid h → IsValid (close_channel env h cid).0
  unfolding close_channel send_packet
  close_channel-IsValid h cid v = found (channels_get h.channels cid) refl
    where
      found :
          (c : Option Channel)
          → channels_get h.channels cid ≡ c
          → KeepsValid (elim c [
            | none ↦ (h, fail not_exist)
            | some ch ↦
                let told =
                  if not (ch.remote_id == 0)
                  then (send_packet env h PacketType.channel_close 0 ch.id ch.remote_id none).0
                  else h in
                (drop_channel env (notify told (channel_closed ch.id normal)) ch.id, value 0)
          ])
      found none e = v
      found (some ch) e =
          if_both
            (λ (t : MultiplexHandler).
              IsValid (drop_channel env (notify t (channel_closed ch.id normal)) ch.id))
            (not (ch.remote_id == 0)) (Agree-drop env _ ch.id v (Owns-get cid v e))
            (Agree-drop env _ ch.id v (Owns-get cid v e))

  -- the end of a call that sent a packet of a channel of the table
  mark_sent-IsValid :
      (now : Timeval) (ch : Channel) (done : Bool) (r : MultiplexHandler × Code)
      → IsValid r.0
      → Owns r.0.channel_ids ch.id
      → IsValid (mark_sent now ch done r).0
  unfolding mark_sent
  mark_sent-IsValid now ch done (h, rc) v own =
      if_both KeepsValid done
        (Agree-update (record ch { local_timestamp = now; last_activity = now }) v own) v

  -- write_channel keeps a valid handler valid, whether it succeeds or fails.
  pub write_channel-IsValid :
      (now : Timeval) (h : MultiplexHandler) (cid : ℕ) (buf : FlexBuffer)
      → IsValid h
      → IsValid (write_channel env now h cid buf).0
  unfolding write_channel send_packet
  write_channel-IsValid now h cid buf v =
      if_both KeepsValid (cid == 0) v (found (channels_get h.channels cid) refl)
    where
      found :
          (c : Option Channel)
          → channels_get h.channels cid ≡ c
          → KeepsValid (elim c [
            | none ↦ (h, fail not_exist)
            | some ch ↦
                let sent =
                  send_packet env h PacketType.channel_data 0 ch.id ch.remote_id (some buf) in
                if not (is_connected ch)
                then (h, fail wrong_state)
                else mark_sent now ch (not (is_fail sent.1)) sent
          ])
      found none e = v
      found (some ch) e =
          if_both KeepsValid (not (is_connected ch)) v
            (mark_sent-IsValid now ch _ _ v (Owns-get cid v e))

  signal_channel-IsValid :
      (now : Timeval) (h : MultiplexHandler) (kind cid : ℕ)
      → IsValid h
      → IsValid (signal_channel env now h kind cid).0
  unfolding signal_channel send_packet
  signal_channel-IsValid now h kind cid v = found (channels_get h.channels cid) refl
    where
      found :
          (c : Option Channel)
          → channels_get h.channels cid ≡ c
          → KeepsValid (elim c [
            | none ↦ (h, fail not_exist)
            | some ch ↦
                let sent = send_packet env h kind 0 ch.id ch.remote_id none in
                if not (is_connected ch)
                then (h, fail wrong_state)
                else mark_sent now ch (is_zero sent.1) sent
          ])
      found none e = v
      found (some ch) e =
          if_both KeepsValid (not (is_connected ch)) v
            (mark_sent-IsValid now ch _ _ v (Owns-get cid v e))

  pub pend_channel-IsValid :
      (now : Timeval) (h : MultiplexHandler) (cid : ℕ)
      → IsValid h
      → IsValid (pend_channel env now h cid).0
  unfolding pend_channel
  pend_channel-IsValid now h cid = signal_channel-IsValid now h PacketType.channel_pending cid

  pub resume_channel-IsValid :
      (now : Timeval) (h : MultiplexHandler) (cid : ℕ)
      → IsValid h
      → IsValid (resume_channel env now h cid).0
  unfolding resume_channel
  resume_channel-IsValid now h cid = signal_channel-IsValid now h PacketType.channel_resume cid

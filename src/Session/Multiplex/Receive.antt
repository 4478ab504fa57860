-- ===== src/Session/Multiplex/Receive.antt =====
-- multiplex_handler_notify_packet of session/multiplex_handler.c, for the bytes of one packet.
-- A handler reads the clock once; `now` is what it reads.
pub mod Invariant
pub mod Transitions
use my_test_module.Prelude.{
  ℕ, ◌+◌, ◌%◌, ◌^◌, Bool, true, false, not, ◌&&◌, ◌||◌, List, [], ◌∷◌, Option, none, some, length,
  drop, ltb, ◌==◌, if◌then◌else◌,
}
use my_test_module.Prelude.Returns.{Code, value, fail, is_fail}
use my_test_module.Common.IdsHeap.{ids_heap_alloc}
use my_test_module.Session.FlexBuffer.{FlexBuffer}
use my_test_module.Session.Packet.{ProtocolBuffer, head_len, read_header}
use my_test_module.Session.PacketType
use my_test_module.Session.Channels.{
  Channel, ChannelType, user, udp_portforwarding, tcp_portforwarding, opening, opened, pending,
  closing, Timeval, channels_put, channels_get, is_opening, is_opened, is_pending,
}
use my_test_module.Session.Multiplex.{
  MultiplexHandler, Env, notify, send_packet, channel_destroy, drop_channel, update_channel, touch,
  ask_open, channel_opened, channel_closed, channel_data, channel_pending, channel_resume,
  stream_data, normal, error,
}

-- The channel type that the option of a request names, where the handler serves it.
unfoldable pub requested_type : MultiplexHandler → ℕ → Option ChannelType
requested_type h option =
    if option == 1
    then (if h.worker then some udp_portforwarding else none)
    else if option == 2
    then (if h.worker && h.reliable then some tcp_portforwarding else none)
    else if option == 0
    then some user
    else none

-- a channel as rc_zalloc and the lines behind it leave it
abbrev pub new_channel : ChannelType → ℕ → ℕ → ℕ → Timeval → Channel
new_channel kind id remote_id timeout now = record {
  id = id % 2 ^ 16;
  remote_id = remote_id;
  kind = kind;
  status = opening;
  local_timestamp = record { sec = 0; usec = 0 };
  remote_timestamp = now;
  last_activity = now;
  timeout = timeout;
}

module _ (env : Env) where
  -- the case PacketType_ChannelOpen of the switch, for the new channel
  unfoldable pub confirm_open : Timeval → MultiplexHandler → Channel → List ℕ → MultiplexHandler
  confirm_open now h ch cookie =
      let ok = env.accept ch cookie in
      let (sent, rc) =
        send_packet env (notify h (ask_open ch.id cookie)) PacketType.channel_open_confirmation 0
          (if ok then ch.id else 0) ch.remote_id none in
      if not ok
      then drop_channel env sent ch.id
      else if is_fail rc
      then drop_channel env (notify sent (channel_closed ch.id error)) ch.id
      else update_channel (notify sent (channel_opened ch.id))
          (touch (record ch { status = opened }) now)

  -- A request to open a channel. Without an id left the refusal is addressed to the `remote_id` of
  -- the new channel, which is still 0.
  unfoldable pub open_request :
      Timeval → MultiplexHandler → ChannelType → ProtocolBuffer → List ℕ → MultiplexHandler
  unfolding confirm_open
  open_request now h kind pb payload =
      if not env.memory
      then h
      else let (ids, cid) = ids_heap_alloc h.channel_ids in
        let h' = record h { channel_ids = ids } in
        elim cid [
          | fail e ↦ (send_packet env h' PacketType.channel_open_confirmation 0 0 0 none).0
          | value id ↦
              let ch = new_channel kind id pb.remote_channel_id 0 now in
              confirm_open now (record h' { channels = channels_put h'.channels ch }) ch payload
        ]

  unfoldable pub confirmation :
      Timeval → MultiplexHandler → Channel → ProtocolBuffer → MultiplexHandler
  confirmation now h ch pb =
      if not (is_opening ch.status)
      then h
      else if not (pb.remote_channel_id == 0)
      then update_channel (notify h (channel_opened ch.id))
          (touch (record ch { status = opened; remote_id = pb.remote_channel_id }) now)
      else drop_channel env (notify h (channel_closed ch.id error)) ch.id

  unfoldable pub received_data : Timeval → MultiplexHandler → Channel → List ℕ → MultiplexHandler
  received_data now h ch payload =
      if not (is_pending ch.status) && not (is_opened ch.status)
      then h
      else let h' = notify h (channel_data ch.id payload) in
        if not (env.consume ch payload)
        then drop_channel env (notify h' (channel_closed ch.id error)) ch.id
        else update_channel h' (touch ch now)

  unfoldable pub received_pending : Timeval → MultiplexHandler → Channel → MultiplexHandler
  received_pending now h ch =
      if not (is_opened ch.status)
      then h
      else update_channel (notify h (channel_pending ch.id))
          (touch (record ch { status = pending }) now)

  unfoldable pub received_resume : Timeval → MultiplexHandler → Channel → MultiplexHandler
  received_resume now h ch =
      if not (is_pending ch.status)
      then h
      else update_channel (notify h (channel_resume ch.id))
          (touch (record ch { status = opened }) now)

  -- the switch on the packet type, for a channel of the table
  unfoldable pub dispatch :
      Timeval → MultiplexHandler → Channel → ProtocolBuffer → List ℕ → MultiplexHandler
  unfolding confirmation received_data received_pending received_resume
  dispatch now h ch pb payload =
      if pb.kind == PacketType.channel_open_confirmation
      then confirmation now h ch pb
      else if pb.kind == PacketType.channel_data
      then received_data now h ch payload
      else if pb.kind == PacketType.channel_keep_alive
      then update_channel h (record ch { remote_timestamp = now })
      else if pb.kind == PacketType.channel_pending
      then received_pending now h ch
      else if pb.kind == PacketType.channel_resume
      then received_resume now h ch
      else if pb.kind == PacketType.channel_close
      then drop_channel env (notify h (channel_closed ch.id normal)) ch.id
      else h

  -- a packet whose length is right
  unfoldable pub route : Timeval → MultiplexHandler → ProtocolBuffer → List ℕ → MultiplexHandler
  unfolding open_request dispatch requested_type
  route now h pb payload =
      if pb.remote_channel_id == 0 && pb.local_channel_id == 0 && pb.kind == PacketType.channel_data
      then notify h (stream_data payload)
      else if pb.kind == PacketType.channel_open
      then elim (requested_type h pb.option) [
        | none ↦ h
        | some kind ↦ open_request now h kind pb payload
      ]
      else elim (channels_get h.channels pb.local_channel_id) [
        | none ↦ h
        | some ch ↦ dispatch now h ch pb payload
      ]

  unfoldable pub notify_packet : Timeval → MultiplexHandler → List ℕ → MultiplexHandler
  unfolding route
  notify_packet now h bytes =
      let pb = read_header bytes in
      if ltb (length bytes) head_len
      then h
      else if not (length bytes == pb.payload_len + head_len)
      then h
      else route now h pb (drop head_len bytes)

-- ===== src/Session/Multiplex/Client.antt =====
-- The functions of session/multiplex_handler.c that the stream calls: open, close, write, pend and
-- resume a channel, and the closing of all of them.
pub mod Invariant
pub mod Closing
pub mod Errors
use my_test_module.Prelude.{
  ℕ, ◌+◌, ◌%◌, Bool, true, false, not, ◌&&◌, ◌||◌, List, [], ◌∷◌, Option, none, some, ◌==◌,
  if◌then◌else◌, length, replicate,
}
use my_test_module.Prelude.Returns.{Code, value, fail, is_fail}
use my_test_module.Common.IdsHeap.{ids_heap_alloc}
use my_test_module.Session.FlexBuffer.{FlexBuffer, padding_len, flex_buffer_from}
use my_test_module.Session.PacketType
use my_test_module.Session.Channels.{
  Channel, ChannelType, user, udp_portforwarding, tcp_portforwarding, Timeval, Channels,
  channels_put, channels_get, is_opened, is_pending,
}
use my_test_module.Session.Multiplex.{
  MultiplexHandler, Env, CloseReason, notify, send_packet, channel_destroy, drop_channel,
  update_channel, channel_closed, normal, error,
}
use my_test_module.Session.Multiplex.Receive.{new_channel}

-- IOEXERR_…, of which IOEX_GENERAL_ERROR makes a negative number
abbrev pub out_of_memory : ℕ
out_of_memory = 0x02

abbrev pub not_exist : ℕ
not_exist = 0x0b

abbrev pub wrong_state : ℕ
wrong_state = 0x12

abbrev pub limit_exceeded : ℕ
limit_exceeded = 0x19

-- the option of a request for a channel of this type
abbrev pub type_option : ChannelType → ℕ
type_option user = 0
type_option udp_portforwarding = 1
type_option tcp_portforwarding = 2

-- The cookie is a C string with its final 0; `none` is NULL.
abbrev pub cookie_buffer : Option (List ℕ) → Option FlexBuffer
cookie_buffer none = none
cookie_buffer (some cookie) = some (
    flex_buffer_from (replicate (length cookie + padding_len) 0) padding_len cookie (length cookie))

-- The code asserts before that the type is one the stream was set up for.
unfoldable pub open_channel :
    Env → Timeval → MultiplexHandler → ChannelType → Option (List ℕ) → ℕ → MultiplexHandler × Code
open_channel env now h kind cookie timeout =
    if not env.memory
    then (h, fail out_of_memory)
    else let (ids, cid) = ids_heap_alloc h.channel_ids in
      let h' = record h { channel_ids = ids } in
      elim cid [
        | fail e ↦ (h', fail limit_exceeded)
        | value id ↦
            let ch = new_channel kind id 0 timeout now in
            let put = record h' { channels = channels_put h'.channels ch } in
            let (sent, rc) =
              send_packet env put PacketType.channel_open (type_option kind) ch.id ch.remote_id
                (cookie_buffer cookie) in
            if is_fail rc then (drop_channel env sent ch.id, rc) else (sent, value id)
      ]

unfoldable pub close_channel : Env → MultiplexHandler → ℕ → MultiplexHandler × Code
close_channel env h cid = elim (channels_get h.channels cid) [
  | none ↦ (h, fail not_exist)
  | some ch ↦
      let told =
        if not (ch.remote_id == 0)
        then (send_packet env h PacketType.channel_close 0 ch.id ch.remote_id none).0
        else h in
      (drop_channel env (notify told (channel_closed ch.id normal)) ch.id, value 0)
]

-- The channel can carry packets: it is open or pending, and the peer has told its id.
abbrev pub is_connected : Channel → Bool
is_connected ch = (is_opened ch.status || is_pending ch.status) && not (ch.remote_id == 0)

-- the end of write, pend and resume: a packet of the channel that was sent is activity
unfoldable pub mark_sent :
    Timeval → Channel → Bool → MultiplexHandler × Code → MultiplexHandler × Code
mark_sent now ch done (h, rc) =
    if done
    then (update_channel h (record ch { local_timestamp = now; last_activity = now }), rc)
    else (h, rc)

-- `rc == 0`
abbrev pub is_zero : Code → Bool
is_zero (value n) = n == 0
is_zero (fail e) = false

unfoldable pub write_channel :
    Env → Timeval → MultiplexHandler → ℕ → FlexBuffer → MultiplexHandler × Code
unfolding mark_sent
write_channel env now h cid buf =
    if cid == 0
    then send_packet env h PacketType.channel_data 0 0 0 (some buf)
    else elim (channels_get h.channels cid) [
      | none ↦ (h, fail not_exist)
      | some ch ↦
          let sent = send_packet env h PacketType.channel_data 0 ch.id ch.remote_id (some buf) in
          if not (is_connected ch)
          then (h, fail wrong_state)
          else mark_sent now ch (not (is_fail sent.1)) sent
    ]

-- pend_channel and resume_channel send one packet each, of this kind
unfoldable pub signal_channel : Env → Timeval → MultiplexHandler → ℕ → ℕ → MultiplexHandler × Code
unfolding mark_sent
signal_channel env now h kind cid = elim (channels_get h.channels cid) [
  | none ↦ (h, fail not_exist)
  | some ch ↦
      let sent = send_packet env h kind 0 ch.id ch.remote_id none in
      if not (is_connected ch)
      then (h, fail wrong_state)
      else mark_sent now ch (is_zero sent.1) sent
]

unfoldable pub pend_channel : Env → Timeval → MultiplexHandler → ℕ → MultiplexHandler × Code
unfolding signal_channel
pend_channel env now h cid = signal_channel env now h PacketType.channel_pending cid

unfoldable pub resume_channel : Env → Timeval → MultiplexHandler → ℕ → MultiplexHandler × Code
unfolding signal_channel
resume_channel env now h cid = signal_channel env now h PacketType.channel_resume cid

-- the loop of close_channels over the channels of the table
unfoldable pub close_each : Env → CloseReason → Channels → MultiplexHandler → MultiplexHandler
close_each env reason [] h = h
close_each env reason (ch ∷ cs) h =
    close_each env reason cs (notify (drop_channel env h ch.id) (channel_closed ch.id reason))

unfoldable pub close_channels : Env → MultiplexHandler → CloseReason → MultiplexHandler
unfolding close_each
close_channels env h reason = close_each env reason h.channels h

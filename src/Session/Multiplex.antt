-- ===== src/Session/Multiplex.antt =====
-- session/multiplex_handler.c: many channels over one stream.
-- `outbox` and `events` record what the handler hands to its neighbours, the latest first: the bytes
-- of each `base.next->write`, and each callback. The callbacks answer, and do not call the handler.
pub mod Receive
pub mod Validity
pub mod Client
pub mod Wire
pub mod Handshake
pub mod Refusal
pub mod Timer
pub mod Stream
use my_test_module.Prelude.{
  ℕ, ◌+◌, ◌-◌, ◌%◌, Bool, true, false, List, [], ◌∷◌, Option, none, some, replicate, ◌==◌,
  if◌then◌else◌,
}
use my_test_module.Prelude.Returns.{Code, value, fail, is_fail}
use my_test_module.Common.Bitset.{IntShift}
use my_test_module.Common.IdsHeap.{IdsHeap, ids_heap_free}
use my_test_module.Session.FlexBuffer.{
  FlexBuffer, contents, padding_len, flex_buffer_init, flex_buffer_backward_offset, write_front,
}
use my_test_module.Session.Packet.{ProtocolBuffer, header_bytes}
use my_test_module.Session.Channels.{
  Channel, ChannelType, ChannelStatus, Channels, Timeval, channels_put, channels_get,
  channels_remove, channels_update,
}

abbrev pub max_channel_id : ℕ
max_channel_id = 2048

pub data CloseReason : Type 0 where
  normal timed_out error : CloseReason

-- the callbacks of a channel, and `base.prev->on_data` and `base.prev->on_state_changed`
pub data Event : Type 0 where
  ask_open : ℕ → List ℕ → Event
  channel_opened : ℕ → Event
  channel_closed : ℕ → CloseReason → Event
  channel_data : ℕ → List ℕ → Event
  channel_pending : ℕ → Event
  channel_resume : ℕ → Event
  stream_data : List ℕ → Event
  stream_state : ℕ → Event

pub record MultiplexHandler : Type 0 where
  pub channels : Channels
  pub channel_ids : IdsHeap
  pub worker : Bool
  pub reliable : Bool
  pub outbox : List (List ℕ)
  pub events : List Event

-- What the handler calls and does not implement. `write` answers for bytes after all that was written
-- before; `accept` and `consume` are the callbacks channel_open and channel_data, true where none is
-- set; `memory` says whether an allocation succeeds.
pub record Env : Type 0 where
  pub shift : IntShift
  pub write : List (List ℕ) → List ℕ → Code
  pub accept : Channel → List ℕ → Bool
  pub consume : Channel → List ℕ → Bool
  pub memory : Bool

abbrev pub notify : MultiplexHandler → Event → MultiplexHandler
notify h e = record h { events = e ∷ h.events }

-- `flex_buffer(FLEX_PADDING_LEN, FLEX_PADDING_LEN)`; the header overwrites the bytes that are sent.
abbrev pub blank_buffer : FlexBuffer
blank_buffer = flex_buffer_init (replicate 128 0) padding_len padding_len

abbrev pub buffer_of : Option FlexBuffer → FlexBuffer
buffer_of none = blank_buffer
buffer_of (some buf) = buf

-- The packet names the channels as the receiver does: its own first.
unfoldable pub packet_bytes : ℕ → ℕ → ℕ → ℕ → FlexBuffer → List ℕ
packet_bytes kind option local_channel_id remote_channel_id buf = contents (
    write_front (flex_buffer_backward_offset buf 8).0 (
      header_bytes (record {
        kind = kind;
        option = option;
        local_channel_id = remote_channel_id;
        remote_channel_id = local_channel_id;
        payload_len = buf.size;
      })))

module _ (env : Env) where
  unfoldable pub send_packet :
      MultiplexHandler → ℕ → ℕ → ℕ → ℕ → Option FlexBuffer → MultiplexHandler × Code
  send_packet h kind option local_channel_id remote_channel_id buf =
      let bytes = packet_bytes kind option local_channel_id remote_channel_id (buffer_of buf) in
      (
        record h { outbox = bytes ∷ h.outbox },
        (elim (env.write h.outbox bytes) [
          | value n ↦ value (buffer_of buf).size
          | fail e ↦ fail e
        ]),
      )

  -- channel_destroy, which the last `deref` of a channel runs
  unfoldable pub channel_destroy : MultiplexHandler → ℕ → MultiplexHandler
  channel_destroy h id =
      if id == 0 then h else record h { channel_ids = (ids_heap_free env.shift h.channel_ids id).0 }

  -- `channels_remove` and the `deref` that follows it: the table held the last reference but one.
  unfoldable pub drop_channel : MultiplexHandler → ℕ → MultiplexHandler
  unfolding channel_destroy
  drop_channel h id = channel_destroy (record h { channels = channels_remove h.channels id }) id

abbrev pub update_channel : MultiplexHandler → Channel → MultiplexHandler
update_channel h ch = record h { channels = channels_update h.channels ch }

-- update_remote_timestamp
abbrev pub touch : Channel → Timeval → Channel
touch ch now = record ch { remote_timestamp = now; last_activity = now }

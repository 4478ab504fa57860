-- ===== src/Tests/Peers.antt =====
-- Two peers of session/multiplex_handler.c.
use my_test_module.Prelude.{
  ℕ, ◌+◌, ◌*◌, ◌^◌, ◌<◌, ◌≡◌, refl, true, List, [], ◌∷◌, some, arith, length,
}
use my_test_module.Prelude.Returns.{value}
use my_test_module.Common.Bitset.Isset.{masked_shift}
use my_test_module.Common.IdsHeap.{IdsHeap}
use my_test_module.Session.FlexBuffer.{flex_buffer_from}
use my_test_module.Session.Channels.{Channel, user, opened, Timeval}
use my_test_module.Session.Multiplex.{
  MultiplexHandler, Env, packet_bytes, channel_closed, timed_out,
}
use my_test_module.Session.Multiplex.Validity.{IsValid}
use my_test_module.Session.Multiplex.Receive.{route, notify_packet, requested_type}
use my_test_module.Session.Multiplex.Receive.Invariant.{notify_packet-IsValid}
use my_test_module.Session.Multiplex.Client.{
  open_channel, pend_channel, resume_channel, close_channels,
}
use my_test_module.Session.Multiplex.Client.Invariant.{pend_channel-IsValid, resume_channel-IsValid}
use my_test_module.Session.Multiplex.Client.Closing.{close_channels_lem}
use my_test_module.Session.Multiplex.Wire.{header, notify_packet-packet_bytes, last_sent}
use my_test_module.Session.Multiplex.Handshake.Steps.{CanOpen, Leads}
use my_test_module.Session.Multiplex.Handshake.{handshake}
use my_test_module.Session.Multiplex.Timer.{checkpoint, is_expired, interval}
use my_test_module.Session.Multiplex.Timer.Laws.{ids, checkpoint_lem}
use my_test_module.Session.Multiplex.Timer.Interval.{micros, interval_lem}
use my_test_module.Tests.Ids.{
  fresh_ids, fresh_ids-IsValid, fresh_run, one_id, one_id-IsValid, one_run, one_id-in_use, two_ids,
}
use my_test_module.Tests.Stream.{four, four-IsValid}

abbrev pub env : Env
env = record {
  shift = masked_shift;
  write = λ sent bytes. value (length bytes);
  accept = λ ch cookie. true;
  consume = λ ch payload. true;
  memory = true;
}

abbrev pub now : Timeval
now = record { sec = 1000; usec = 0 }

abbrev peer_with : IdsHeap → MultiplexHandler
peer_with ids = record {
  channels = [];
  channel_ids = ids;
  worker = true;
  reliable = true;
  outbox = [];
  events = [];
}

peer-CanOpen : CanOpen env (peer_with fresh_ids) 1 one_id
peer-CanOpen = record {
  valid = record { ids_valid = fresh_ids-IsValid; narrow = omega arith; owned = tt; distinct = tt };
  memory = refl;
  delivers = λ sent bytes. (length bytes, refl);
  next = fresh_run;
}

other-CanOpen : CanOpen env (peer_with one_id) 2 two_ids
other-CanOpen = record {
  valid = record { ids_valid = one_id-IsValid; narrow = omega arith; owned = tt; distinct = tt };
  memory = refl;
  delivers = λ sent bytes. (length bytes, refl);
  next = one_run;
}

handshake_example :
    let (a1, rc) = open_channel env now (peer_with fresh_ids) user (some (104 ∷ 0 ∷ [])) 30 in
    let b1 = notify_packet env now (peer_with one_id) (last_sent a1) in
    let a2 = notify_packet env now a1 (last_sent b1) in (rc ≡ value 1) × Leads a2 1 2 × Leads b1 2 1
unfolding requested_type flex_buffer_from
handshake_example =
    handshake env env (peer_with fresh_ids) (peer_with one_id) 1 2 one_id two_ids peer-CanOpen
      other-CanOpen now now now user (some (104 ∷ 0 ∷ [])) 30 (omega arith) refl refl

-- a handler with one open channel
abbrev pub channel : Channel
channel = record {
  id = 1;
  remote_id = 300;
  kind = user;
  status = opened;
  local_timestamp = now;
  remote_timestamp = now;
  last_activity = now;
  timeout = 0;
}

abbrev pub busy : MultiplexHandler
busy = record {
  channels = channel ∷ [];
  channel_ids = one_id;
  worker = true;
  reliable = true;
  outbox = [];
  events = [];
}

pub busy-IsValid : IsValid busy
busy-IsValid = record {
  ids_valid = one_id-IsValid;
  narrow = omega arith;
  owned = ((omega arith, omega arith, one_id-in_use), tt);
  distinct = (tt, tt);
}

-- a close packet for the channel 1
abbrev close_packet : List ℕ
close_packet = 7 ∷ 0 ∷ 0 ∷ 1 ∷ 1 ∷ 44 ∷ 0 ∷ 0 ∷ []

notify_packet-IsValid_example : IsValid (notify_packet env now busy close_packet)
notify_packet-IsValid_example = notify_packet-IsValid env now busy close_packet busy-IsValid

pend_channel-IsValid_example : IsValid (pend_channel env now busy 1).0
pend_channel-IsValid_example = pend_channel-IsValid env now busy 1 busy-IsValid

resume_channel-IsValid_example : IsValid (resume_channel env now busy 1).0
resume_channel-IsValid_example = resume_channel-IsValid env now busy 1 busy-IsValid

close_channels_lem_example :
    let h' = close_channels env busy timed_out in
    (h'.channels ≡ [])
    × (h'.events ≡ channel_closed 1 timed_out ∷ [])
    × (h'.outbox ≡ [])
    × IsValid h'
close_channels_lem_example = close_channels_lem env timed_out busy busy-IsValid

notify_packet-packet_bytes_example :
    notify_packet env now busy (packet_bytes 3 0 300 1 four)
    ≡ route env now busy (header 3 0 300 1 four) (1 ∷ 2 ∷ 3 ∷ 4 ∷ [])
notify_packet-packet_bytes_example =
    notify_packet-packet_bytes 3 0 300 1 four
      (record { valid = four-IsValid; padded = omega arith }) env now busy
      (record {
        kind = omega arith;
        option = omega arith;
        local = omega arith;
        remote = omega arith;
        payload = omega arith;
      })

-- 200 seconds later
abbrev later : Timeval
later = record { sec = 1200; usec = 5 }

checkpoint_lem_example :
    let h' = checkpoint env later busy in
    (ids h'.channels ≡ []) × (h'.events ≡ channel_closed 1 timed_out ∷ []) × IsValid h'
unfolding is_expired interval
checkpoint_lem_example = checkpoint_lem env later busy busy-IsValid

interval_lem_example :
    (micros later < micros now + (interval later now + 1) * 1000)
    × (micros now + interval later now * 1000 < micros later + 1000)
    × (interval later now < 2 ^ 31)
interval_lem_example =
    interval_lem later now (omega arith) (omega arith) (omega arith) (omega arith)

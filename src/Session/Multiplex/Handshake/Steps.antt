-- ===== src/Session/Multiplex/Handshake/Steps.antt =====
-- The two peers at the opening of a channel between multiplex handlers: the one that asks, before and
-- after the answer, and the one that is asked.
use my_test_module.Prelude.{
  ℕ, ◌+◌, ◌^◌, ◌<◌, ◌≡◌, ◌≢◌, refl, sym, ap, ◌∙◌, true, List, ◌∷◌, Option, none, some, arith,
  length, ==_of_ne, replicate, take, length-replicate, length-splice,
}
use my_test_module.Prelude.Returns.{value}
use my_test_module.Common.IdsHeap.{IdsHeap, ids_heap_alloc}
use my_test_module.Session.FlexBuffer.{flex_buffer_from}
use my_test_module.Session.PacketType
use my_test_module.Session.Packet.{ProtocolBuffer}
use my_test_module.Session.Channels.{
  Channel, ChannelType, opened, user, udp_portforwarding, tcp_portforwarding, Timeval, channels_put,
  channels_get, channels_update,
}
use my_test_module.Session.Channels.Laws.{get-put_same, get-update_same}
use my_test_module.Session.Multiplex.{
  MultiplexHandler, Env, notify, packet_bytes, buffer_of, blank_buffer, touch, update_channel,
  ask_open, channel_opened,
}
use my_test_module.Session.Multiplex.Validity.{IsValid, Owns-alloc}
use my_test_module.Session.Multiplex.Receive.{
  new_channel, confirm_open, open_request, confirmation, dispatch, route,
}
use my_test_module.Session.Multiplex.Client.{open_channel, cookie_buffer, type_option}
use my_test_module.Session.Multiplex.Wire.{Sendable, blank-Sendable, Delivers, send_packet_lem}

-- A peer that can open one more channel and whose transport takes what is written.
pub record CanOpen (env : Env) (h : MultiplexHandler) (id : ℕ) (ids : IdsHeap) : Type 0 where
  pub valid : IsValid h
  pub memory : env.memory ≡ true
  pub delivers : Delivers env
  pub next : ids_heap_alloc h.channel_ids ≡ (ids, value id)

pub cookie-Sendable :
    (cookie : Option (List ℕ))
    → (buffer_of (cookie_buffer cookie)).size < 2 ^ 16
    → Sendable (buffer_of (cookie_buffer cookie))
unfolding flex_buffer_from
cookie-Sendable none h = blank-Sendable
cookie-Sendable (some cookie) h = record {
  valid = record {
    storage = omega (
      arith,
      length-splice 128 (take (length cookie) cookie) (replicate {A = ℕ} (length cookie + 128) 0),
      length-replicate {A = ℕ} (length cookie + 128) 0,
    );
    inside = omega arith;
    addressable = omega arith;
  };
  padded = omega arith;
}

-- the state after `open_channel`, with the request sent
module _ (env : Env) (h : MultiplexHandler) (id : ℕ) (ids : IdsHeap) (c : CanOpen env h id ids)
    (now : Timeval) (kind : ChannelType) (cookie : Option (List ℕ)) (timeout : ℕ) where
  abbrev pub requested : Channel
  requested = new_channel kind id 0 timeout now

  abbrev pub after_request : MultiplexHandler
  after_request = record h {
    channel_ids = ids;
    channels = channels_put h.channels requested;
    outbox =
        packet_bytes PacketType.channel_open (type_option kind) requested.id 0
          (buffer_of (cookie_buffer cookie))
        ∷ h.outbox;
  }

  pub open_channel_lem : open_channel env now h kind cookie timeout ≡ (after_request, value id)
  unfolding open_channel
  open_channel_lem =
      simp (c.memory, c.next)
        (rw (
          send_packet_lem env
            (record h { channel_ids = ids; channels = channels_put h.channels requested })
            PacketType.channel_open (type_option kind) requested.id 0 (cookie_buffer cookie)
            c.delivers))

-- the channel `id` of the handler is open and its packets go to the peer's channel `peer`
abbrev pub Leads : MultiplexHandler → ℕ → ℕ → Type 0
Leads h id peer =
    (ch : Channel) × (channels_get h.channels id ≡ some ch)
    × (ch.id ≡ id)
    × (ch.status ≡ opened)
    × (ch.remote_id ≡ peer)

-- the peer that is asked
module _ (env : Env) (h : MultiplexHandler) (id : ℕ) (ids : IdsHeap) (c : CanOpen env h id ids)
    (now : Timeval) (kind : ChannelType) (peer : ℕ) (payload : List ℕ) where
  abbrev pub offered : Channel
  offered = new_channel kind id peer 0 now

  abbrev pub after_offer : MultiplexHandler
  after_offer = record h {
    channel_ids = ids;
    channels =
        channels_update (channels_put h.channels offered)
          (touch (record offered { status = opened }) now);
    outbox =
        packet_bytes PacketType.channel_open_confirmation 0 offered.id peer blank_buffer ∷ h.outbox;
    events = channel_opened offered.id ∷ ask_open offered.id payload ∷ h.events;
  }

  pub open_request_lem :
      (pb : ProtocolBuffer)
      → pb.remote_channel_id ≡ peer
      → env.accept offered payload ≡ true
      → open_request env now h kind pb payload ≡ after_offer
  unfolding open_request confirm_open
  open_request_lem pb e ok =
      simp (c.memory, c.next, e, ok)
        (rw (
          send_packet_lem env
            (notify (record h { channel_ids = ids; channels = channels_put h.channels offered })
              (ask_open offered.id payload))
            PacketType.channel_open_confirmation 0 offered.id peer none c.delivers))

  pub after_offer-Leads : Leads after_offer id peer
  after_offer-Leads =
      let (own, same) = Owns-alloc c.valid c.next in
      let ch = touch (record offered { status = opened }) now in
      (
        ch,
        ap (channels_get after_offer.channels) (sym same)
            ∙ get-update_same (channels_put h.channels offered) ch {old = offered}
                (get-put_same h.channels offered),
        same,
        refl,
        refl,
      )

-- the peer that asked, when the other's id comes back
module _ (env : Env) (h : MultiplexHandler) (id : ℕ) (ids : IdsHeap) (c : CanOpen env h id ids)
    (now : Timeval) (kind : ChannelType) (cookie : Option (List ℕ)) (timeout : ℕ) (later : Timeval)
    (peer : ℕ) where
  abbrev pub confirmed : Channel
  confirmed =
      touch
        (record (requested env h id ids c now kind cookie timeout) {
          status = opened;
          remote_id = peer;
        })
        later

  abbrev pub after_confirmation : MultiplexHandler
  after_confirmation =
      let a = after_request env h id ids c now kind cookie timeout in
      update_channel (notify a (channel_opened confirmed.id)) confirmed

  pub route-confirmation :
      (pb : ProtocolBuffer) (payload : List ℕ)
      → pb.kind ≡ PacketType.channel_open_confirmation
      → pb.local_channel_id ≡ id
      → pb.remote_channel_id ≡ peer
      → peer ≢ 0
      → route env later (after_request env h id ids c now kind cookie timeout) pb payload
        ≡ after_confirmation
  unfolding route dispatch confirmation
  route-confirmation pb payload k l r ne =
      let a = after_request env h id ids c now kind cookie timeout in
      let (own, same) = Owns-alloc c.valid c.next in
      let found : channels_get a.channels id
          ≡ some (requested env h id ids c now kind cookie timeout) =
        ap (channels_get a.channels) (sym same)
        ∙ get-put_same h.channels (requested env h id ids c now kind cookie timeout) in
      simp (k, l, r, ==_of_ne _ _ ne, found)

  pub after_confirmation-Leads : Leads after_confirmation id peer
  after_confirmation-Leads =
      let a = after_request env h id ids c now kind cookie timeout in
      let (own, same) = Owns-alloc c.valid c.next in
      (
        confirmed,
        ap (channels_get after_confirmation.channels) (sym same)
            ∙ get-update_same a.channels confirmed
                {old = requested env h id ids c now kind cookie timeout}
                (get-put_same h.channels (requested env h id ids c now kind cookie timeout)),
        same,
        refl,
        refl,
      )

pub type_option_small : (kind : ChannelType) → type_option kind < 256
type_option_small user = omega arith
type_option_small udp_portforwarding = omega arith
type_option_small tcp_portforwarding = omega arith

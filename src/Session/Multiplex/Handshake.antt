-- ===== src/Session/Multiplex/Handshake.antt =====
-- The opening of a channel between the multiplex handlers of two peers.
pub mod Steps
use my_test_module.Prelude.{
  ℕ, ◌+◌, ◌^◌, ◌<◌, ◌≡◌, ◌≢◌, refl, sym, ap, ◌∙◌, true, List, ◌∷◌, Option, none, some, arith,
  length, ==_of_ne, replicate, take, length-replicate, length-splice,
}
use my_test_module.Prelude.Returns.{value}
use my_test_module.Common.IdsHeap.{IdsHeap, ids_heap_alloc}
use my_test_module.Session.FlexBuffer.{contents, flex_buffer_from, flex_buffer_init}
use my_test_module.Session.PacketType
use my_test_module.Session.Packet.{ProtocolBuffer}
use my_test_module.Session.Channels.{
  Channel, ChannelType, opened, user, udp_portforwarding, tcp_portforwarding, Timeval, channels_put,
  channels_get, channels_update,
}
use my_test_module.Session.Channels.Laws.{get-put_same, get-update_same}
use my_test_module.Session.Multiplex.{
  MultiplexHandler, Env, notify, packet_bytes, buffer_of, blank_buffer, touch, update_channel,
  ask_open, channel_opened,
}
use my_test_module.Session.Multiplex.Validity.{IsValid, Owns-alloc}
use my_test_module.Session.Multiplex.Receive.{
  new_channel, requested_type, confirm_open, open_request, confirmation, dispatch, route,
  notify_packet,
}
use my_test_module.Session.Multiplex.Client.{open_channel, cookie_buffer, type_option}
use my_test_module.Session.Multiplex.Wire.{
  header, Sendable, notify_packet-packet_bytes, blank-Sendable, Delivers, send_packet_lem,
  last_sent,
}
use my_test_module.Session.Multiplex.Handshake.Steps.{
  CanOpen, cookie-Sendable, requested, after_request, open_channel_lem, Leads, offered, after_offer,
  open_request_lem, after_offer-Leads, confirmed, after_confirmation, route-confirmation,
  after_confirmation-Leads, type_option_small,
}

-- A peer opens a channel, the other reads the request, and the first reads the answer.
module _ (envA envB : Env) (hA hB : MultiplexHandler) (ca cb : ℕ) (idsA idsB : IdsHeap)
    (cA : CanOpen envA hA ca idsA) (cB : CanOpen envB hB cb idsB) (t1 t2 t3 : Timeval)
    (kind : ChannelType) (cookie : Option (List ℕ)) (timeout : ℕ) where
  abbrev payload : List ℕ
  payload = contents (buffer_of (cookie_buffer cookie))

  route-offer :
      requested_type hB (type_option kind) ≡ some kind
      → envB.accept (new_channel kind cb ca 0 t2) payload ≡ true
      → route envB t2 hB
          (header PacketType.channel_open
            (type_option kind)
            ca
            0
            (buffer_of (cookie_buffer cookie)))
          payload
        ≡ after_offer envB hB cb idsB cB t2 kind ca payload
  unfolding route
  route-offer serves ok =
      let (own, same) = Owns-alloc cA.valid cA.next in
      let ne : ca ≢ 0 = omega (arith, own.0) in
      rw (==_of_ne ca 0 ne, serves)
        (open_request_lem envB hB cb idsB cB t2 kind ca payload
          (header PacketType.channel_open (type_option kind) ca 0
            (buffer_of (cookie_buffer cookie)))
          refl ok)

  open_request-arrives :
      (buffer_of (cookie_buffer cookie)).size < 2 ^ 16
      → requested_type hB (type_option kind) ≡ some kind
      → envB.accept (new_channel kind cb ca 0 t2) payload ≡ true
      → notify_packet envB t2 hB
          (last_sent (after_request envA hA ca idsA cA t1 kind cookie timeout))
        ≡ after_offer envB hB cb idsB cB t2 kind ca payload
  open_request-arrives small serves ok =
      let (own, same) = Owns-alloc cA.valid cA.next in
      let buf = buffer_of (cookie_buffer cookie) in
      ap
        (λ i.
          notify_packet envB t2 hB
            (packet_bytes PacketType.channel_open (type_option kind) i 0 buf))
        same
      ∙ notify_packet-packet_bytes PacketType.channel_open (type_option kind) ca 0 buf
          (cookie-Sendable cookie small) envB t2 hB
          (record {
            kind = omega arith;
            option = type_option_small kind;
            local = omega arith;
            remote = omega (arith, same);
            payload = small;
          })
      ∙ route-offer serves ok

  confirmation-arrives :
      notify_packet envA t3
        (after_request envA hA ca idsA cA t1 kind cookie timeout)
        (last_sent (after_offer envB hB cb idsB cB t2 kind ca payload))
      ≡ after_confirmation envA hA ca idsA cA t1 kind cookie timeout t3 cb
  unfolding flex_buffer_init
  confirmation-arrives =
      let a = after_request envA hA ca idsA cA t1 kind cookie timeout in
      let (own, same) = Owns-alloc cB.valid cB.next in
      let (_, sameA) = Owns-alloc cA.valid cA.next in
      let pb = header PacketType.channel_open_confirmation 0 cb ca blank_buffer in
      let ne : cb ≢ 0 = omega (arith, own.0) in
      ap
        (λ i.
          notify_packet envA t3 a
            (packet_bytes PacketType.channel_open_confirmation 0 i ca blank_buffer))
        same
      ∙ notify_packet-packet_bytes PacketType.channel_open_confirmation 0 cb ca blank_buffer
          blank-Sendable envA t3 a
          (record {
            kind = omega arith;
            option = omega arith;
            local = omega (arith, sameA);
            remote = omega (arith, same);
            payload = omega arith;
          })
      ∙ route-confirmation envA hA ca idsA cA t1 kind cookie timeout t3 cb pb
          (contents blank_buffer) refl refl refl ne

  -- When a peer opens a channel whose cookie fits a packet, the other peer serves its type and its
  -- callback accepts it, both have an id left and valid channels, and both transports deliver, then
  -- after the request and the answer have been read both channels are open, and each leads to the
  -- other's id; open_channel returns the id of the channel.
  pub handshake :
      (buffer_of (cookie_buffer cookie)).size < 2 ^ 16
      → requested_type hB (type_option kind) ≡ some kind
      → envB.accept (new_channel kind cb ca 0 t2) (contents (buffer_of (cookie_buffer cookie)))
        ≡ true
      → let (a1, rc) = open_channel envA t1 hA kind cookie timeout in
        let b1 = notify_packet envB t2 hB (last_sent a1) in
        let a2 = notify_packet envA t3 a1 (last_sent b1) in
        (rc ≡ value ca) × Leads a2 ca cb × Leads b1 cb ca
  handshake small serves ok =
      rw
        (
          open_channel_lem envA hA ca idsA cA t1 kind cookie timeout,
          open_request-arrives small serves ok,
          confirmation-arrives,
        )
        (
          refl,
          after_confirmation-Leads envA hA ca idsA cA t1 kind cookie timeout t3 cb,
          after_offer-Leads envB hB cb idsB cB t2 kind ca payload,
        )

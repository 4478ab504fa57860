-- ===== src/Session/Multiplex/Refusal.antt =====
-- A request to a multiplex handler that has no id left: what the peer that asked learns.
use my_test_module.Prelude.{ℕ, ◌≡◌, true, List, ◌∷◌, Option}
use my_test_module.Prelude.Returns.{fail}
use my_test_module.Common.IdsHeap.{IdsHeap, ids_heap_alloc}
use my_test_module.Session.PacketType
use my_test_module.Session.Channels.{ChannelType, Channels, Timeval}
use my_test_module.Session.Multiplex.{MultiplexHandler, Env, packet_bytes, blank_buffer}
use my_test_module.Session.Multiplex.Wire.{Delivers}
use my_test_module.Session.Multiplex.Handshake.Steps.{CanOpen}

module _ (envA envB : Env) (hA hB : MultiplexHandler) (ca e : ℕ) (idsA idsB : IdsHeap)
    (cA : CanOpen envA hA ca idsA) (memory : envB.memory ≡ true) (delivers : Delivers envB)
    (full : ids_heap_alloc hB.channel_ids ≡ (idsB, fail e)) (t1 t2 t3 : Timeval)
    (kind : ChannelType) (cookie : Option (List ℕ)) (timeout : ℕ) where
  abbrev after_refusal : MultiplexHandler
  after_refusal = record hB {
    channel_ids = idsB;
    outbox = packet_bytes PacketType.channel_open_confirmation 0 0 0 blank_buffer ∷ hB.outbox;
  }

-- ===== src/Tests/States.antt =====
-- A channel of session/multiplex_handler.c that is open, and one that is still being opened.
use my_test_module.Prelude.{ℕ, List, [], ◌∷◌}
use my_test_module.Session.Channels.{opening}
use my_test_module.Session.Channels.Steps.{Steps}
use my_test_module.Session.Multiplex.{MultiplexHandler}
use my_test_module.Session.Multiplex.Receive.{notify_packet}
use my_test_module.Session.Multiplex.Receive.Transitions.{notify_packet-Steps}
use my_test_module.Tests.Peers.{env, now, channel, busy, busy-IsValid}

-- a packet that pauses the channel 1
abbrev pending_packet : List ℕ
pending_packet = 5 ∷ 0 ∷ 0 ∷ 1 ∷ 1 ∷ 44 ∷ 0 ∷ 0 ∷ []

notify_packet-Steps_example :
    Steps busy.channels (notify_packet env now busy pending_packet).channels
notify_packet-Steps_example = notify_packet-Steps env now busy pending_packet busy-IsValid

abbrev waiting : MultiplexHandler
waiting = record busy { channels = record channel { status = opening; remote_id = 0 } ∷ [] }

-- ===== src/Session/PacketType.antt =====
-- `PacketType` of session/multiplex_handler.h.
use my_test_module.Prelude.{ℕ}

abbrev pub channel_open : ℕ
channel_open = 1

abbrev pub channel_open_confirmation : ℕ
channel_open_confirmation = 2

abbrev pub channel_data : ℕ
channel_data = 3

abbrev pub channel_keep_alive : ℕ
channel_keep_alive = 4

abbrev pub channel_pending : ℕ
channel_pending = 5

abbrev pub channel_resume : ℕ
channel_resume = 6

abbrev pub channel_close : ℕ
channel_close = 7

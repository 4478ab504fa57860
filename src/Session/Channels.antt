-- ===== src/Session/Channels.antt =====
-- session/channels.h: the table of the channels by their ids, in the order of their insertion, and
-- the `Channel` of session/multiplex_handler.h.
pub mod Laws
pub mod Steps
use my_test_module.Prelude.{
  ℕ, Bool, true, false, List, [], ◌∷◌, Option, none, some, ◌==◌, if◌then◌else◌,
}

pub data ChannelType : Type 0 where
  user udp_portforwarding tcp_portforwarding : ChannelType

pub data ChannelStatus : Type 0 where
  opening opened pending closing : ChannelStatus

pub record Timeval : Type 0 where
  pub sec : ℕ
  pub usec : ℕ

pub record Channel : Type 0 where
  pub id : ℕ
  pub remote_id : ℕ
  pub kind : ChannelType
  pub status : ChannelStatus
  pub local_timestamp : Timeval
  pub remote_timestamp : Timeval
  pub last_activity : Timeval
  pub timeout : ℕ

abbrev pub Channels : Type 0
Channels = List Channel

-- An entry with the key is replaced where it stands; a new one goes to the end.
unfoldable pub channels_put : Channels → Channel → Channels
channels_put [] ch = ch ∷ []
channels_put (c ∷ cs) ch = if c.id == ch.id then ch ∷ cs else c ∷ channels_put cs ch

unfoldable pub channels_get : Channels → ℕ → Option Channel
channels_get [] id = none
channels_get (c ∷ cs) id = if c.id == id then some c else channels_get cs id

unfoldable pub channels_remove : Channels → ℕ → Channels
channels_remove [] id = []
channels_remove (c ∷ cs) id = if c.id == id then cs else c ∷ channels_remove cs id

-- A write through a pointer to a channel of the table.
unfoldable pub channels_update : Channels → Channel → Channels
channels_update [] ch = []
channels_update (c ∷ cs) ch = if c.id == ch.id then ch ∷ cs else c ∷ channels_update cs ch

abbrev pub is_opening : ChannelStatus → Bool
is_opening opening = true
is_opening opened = false
is_opening pending = false
is_opening closing = false

abbrev pub is_opened : ChannelStatus → Bool
is_opened opening = false
is_opened opened = true
is_opened pending = false
is_opened closing = false

abbrev pub is_pending : ChannelStatus → Bool
is_pending opening = false
is_pending opened = false
is_pending pending = true
is_pending closing = false

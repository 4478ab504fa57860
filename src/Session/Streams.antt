-- ===== src/Session/Streams.antt =====
-- session/session.c: a session, its streams and how they start. `trace` records what the session calls,
-- the latest first. The handlers of a stream report their states in stream_base_on_state_changed, a
-- step of its own. The keys and nonces that are drawn are left out.
pub mod Request
pub mod Order
pub mod Entries
pub mod Held
pub mod Invariant
pub mod Progress
pub mod Mux
use my_test_module.Prelude.{
  ℕ, ◌+◌, ◌-◌, ◌/◌, ◌%◌, ◌^◌, Bool, true, false, not, ◌&&◌, ◌||◌, List, [], ◌∷◌, ◌++◌, ◌⊎◌, inl,
  inr, Option, none, some, length, take, ltb, ◌==◌, if◌then◌else◌,
}
use my_test_module.Prelude.Returns.{Code, value, fail, is_fail}
use my_test_module.Common.Bitset.{IntShift}
use my_test_module.Common.IdsHeap.{IdsHeap, ids_heap_alloc, ids_heap_free}
use my_test_module.Carrier.Files.{invalid_args, out_of_memory, not_exist}
use my_test_module.Session.Multiplex.Client.{wrong_state}

abbrev pub not_implemented : ℕ
not_implemented = 0x18

abbrev pub max_user_data_len : ℕ
max_user_data_len = 2048

abbrev pub transport_ready : ℕ
transport_ready = 2

abbrev pub connected : ℕ
connected = 4

abbrev pub deactivated : ℕ
deactivated = 5

-- ":session", which is appended to the peer's id
abbrev pub extension : List ℕ
extension = 58 ∷ 115 ∷ 101 ∷ 115 ∷ 115 ∷ 105 ∷ 111 ∷ 110 ∷ []

pub data HandlerKind : Type 0 where
  multiplexer reliability crypto : HandlerKind

pub record Stream : Type 0 where
  pub id : ℕ
  pub kind : ℕ
  pub state : ℕ
  pub compress : Bool
  pub unencrypt : Bool
  pub reliable : Bool
  pub multiplexing : Bool
  pub portforwarding : Bool
  pub deactivate : Bool
  pub handlers : List HandlerKind

pub data Action : Type 0 where
  pipeline_init : ℕ → Action
  pipeline_prepare : ℕ → Action
  pipeline_start : ℕ → Action
  pipeline_stop : ℕ → Action
  pipeline_write : ℕ → List ℕ → Action
  fire_state_changed : ℕ → ℕ → Action
  state_changed : ℕ → ℕ → Action
  invite_friend : List ℕ → List ℕ → Action
  reply_friend_invite : List ℕ → ℕ → Option (List ℕ) → Option (List ℕ) → Action
  apply_remote_sdp : List ℕ → Action
  worker_stop : Action

-- `stream_ids` is the heap of the extension.
pub record Session : Type 0 where
  pub peer : List ℕ
  pub streams : List Stream
  pub stream_ids : IdsHeap
  pub offerer : Bool
  pub crypto_enabled : Bool
  pub has_callback : Bool
  pub error : Code
  pub trace : List Action

-- The transport, the handlers and the carrier, which the session calls through pointers. The local SDP
-- is that of the streams, or an error.
pub record Env : Type 0 where
  pub shift : IntShift
  pub create_stream : Code
  pub create_handler : HandlerKind → Code
  pub init : Stream → Code
  pub prepare : Stream → Code
  pub write : Stream → List ℕ → Code
  pub set_offer : Bool → Bool
  pub encode_local_sdp : List Stream → List ℕ ⊎ ℕ
  pub apply : List ℕ → Code
  pub invite : List ℕ → Code
  pub reply : ℕ → Option (List ℕ) → Code

abbrev pub act : Session → Action → Session
act w a = record w { trace = a ∷ w.trace }

abbrev pub refuse : Session → Code → Session × Code
refuse w rc = (record w { error = rc }, fail 1)

-- `rc == 0`
abbrev pub is_zero : Code → Bool
is_zero (value n) = n == 0
is_zero (fail e) = false

-- `options & (1 << n)`
abbrev pub flag : ℕ → ℕ → Bool
flag options n = options / 2 ^ n % 2 == 1

unfoldable pub get_stream : List Stream → ℕ → Option Stream
get_stream [] stream = none
get_stream (s ∷ ss) stream = if s.id == stream then some s else get_stream ss stream

-- list_remove_entry of the entry of the stream with the id
unfoldable pub remove_entry : List Stream → ℕ → List Stream
remove_entry [] stream = []
remove_entry (s ∷ ss) stream = if s.id == stream then ss else s ∷ remove_entry ss stream

abbrev pub new_stream : ℕ → ℕ → ℕ → Stream
new_stream id kind options = record {
  id = id;
  kind = kind;
  state = 0;
  compress = flag options 0;
  unencrypt = flag options 1;
  reliable = flag options 2;
  multiplexing = flag options 3 || flag options 4;
  portforwarding = flag options 4;
  deactivate = false;
  handlers = [];
}

-- the handlers that the options ask for, in their order
abbrev pub wanted : Stream → List HandlerKind
wanted s =
    (if s.multiplexing then multiplexer ∷ [] else [])
    ++ ((if s.reliable then reliability ∷ [] else []) ++ (if s.unencrypt then [] else crypto ∷ []))

-- `s->session->crypto.enabled = 1;` in front of the crypto handler
abbrev pub enable : Session → HandlerKind → Session
enable w multiplexer = w
enable w reliability = w
enable w crypto = record w { crypto_enabled = true }

unfoldable pub stop_each : List Stream → Session → Session
stop_each [] w = w
stop_each (s ∷ ss) w = stop_each ss (act w (pipeline_stop s.id))

-- the stream with the id is in another state
unfoldable pub with_state : List Stream → ℕ → ℕ → List Stream
with_state [] stream state = []
with_state (s ∷ ss) stream state =
    if s.id == stream then record s { state = state } ∷ ss else s ∷ with_state ss stream state

unfoldable pub stream_base_on_state_changed : Session → ℕ → ℕ → Session
stream_base_on_state_changed w stream state =
    act (record w { streams = with_state w.streams stream state }) (state_changed stream state)

unfoldable pub session_internal_close : Session → Session
session_internal_close w = act (stop_each w.streams w) worker_stop

module _ (env : Env) where
  -- the last reference goes
  unfoldable pub stream_base_destroy : Session → ℕ → Session
  stream_base_destroy w id =
      if ltb 0 id then record w { stream_ids = (ids_heap_free env.shift w.stream_ids id).0 } else w

  unfoldable pub init_stream : Session → Stream → Session × Code
  init_stream w s =
      let w1 = act (record w { streams = w.streams ++ (s ∷ []) }) (pipeline_init s.id) in
      if is_fail (env.init s)
      then refuse (stream_base_destroy (record w1 { streams = w.streams }) s.id) (env.init s)
      else (w1, value s.id)

  unfoldable pub connect : List HandlerKind → Session → Stream → Session × Code
  connect [] w s = init_stream w s
  connect (k ∷ ks) w s =
      let rest = connect ks (enable w k) (record s { handlers = s.handlers ++ (k ∷ []) }) in
      if is_fail (env.create_handler k)
      then refuse (stream_base_destroy (enable w k) s.id) (env.create_handler k)
      else rest

  unfoldable pub with_id : Session → ℕ → ℕ → IdsHeap × Code → Session × Code
  with_id w kind options (ids, fail e) = refuse (record w { stream_ids = ids }) (fail out_of_memory)
  with_id w kind options (ids, value id) =
      let s = new_stream id kind options in
      if id == 0
      then refuse (record w { stream_ids = ids }) (fail out_of_memory)
      else connect (wanted s) (record w { stream_ids = ids }) s

  -- audio is 0 and video is 1
  unfoldable pub add_stream : Session → ℕ → ℕ → Session × Code
  add_stream w kind options =
      if kind == 0 || kind == 1
      then refuse w (fail not_implemented)
      else if not (is_zero env.create_stream)
      then refuse w env.create_stream
      else with_id w kind options (ids_heap_alloc w.stream_ids)

  unfoldable pub remove_stream : Session → ℕ → Session × Code
  remove_stream w stream =
      if stream == 0 then refuse w (fail invalid_args) else elim (get_stream w.streams stream) [
        | none ↦ refuse w (fail not_exist)
        | some s ↦ (
          stream_base_destroy
              (record w {
                streams = remove_entry w.streams s.id;
                trace = pipeline_stop s.id ∷ w.trace;
              })
              s.id,
          value 0,
        )
      ]

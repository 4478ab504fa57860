-- ===== src/Session/Streams/Mux.antt =====
-- session/session.c: the calls that hand a channel operation on to the multiplex handler of a stream.
pub mod Laws
use my_test_module.Prelude.{
  ℕ, ◌+◌, Bool, true, false, not, ◌&&◌, ◌||◌, List, Option, none, some, length, replicate, ltb,
  ◌==◌, if◌then◌else◌,
}
use my_test_module.Prelude.Returns.{Code, value, fail}
use my_test_module.Common.Ring.{update}
use my_test_module.Carrier.Files.{invalid_args, not_exist}
use my_test_module.Session.FlexBuffer.{FlexBuffer, flex_buffer_from, padding_len}
use my_test_module.Session.Channels.{Timeval, user}
use my_test_module.Session.Multiplex
use my_test_module.Session.Multiplex.{MultiplexHandler}
use my_test_module.Session.Multiplex.Client.{
  open_channel, close_channel, write_channel, pend_channel, resume_channel, wrong_state,
}
use my_test_module.Session.Streams.{Stream, Session, connected, max_user_data_len, get_stream}

-- A session with the multiplex handlers of its streams, by the ids of these. A stream that does not
-- multiplex has none, whatever stands at its id.
pub record Endpoint : Type 0 where
  pub session : Session
  pub muxes : ℕ → MultiplexHandler

abbrev pub set_error : Endpoint → ℕ → Endpoint
set_error p e = record p { session = record (p.session) { error = fail e } }

abbrev pub refuse : Endpoint → ℕ → Endpoint × Code
refuse p e = (set_error p e, fail 1)

-- the handler's answer, or the error of a stream that has none
unfoldable pub mux_call :
    Endpoint → Stream → (MultiplexHandler → MultiplexHandler × Code) → Endpoint × Code
mux_call p s op =
    let r = op (p.muxes s.id) in
    if s.multiplexing
    then (record p { muxes = update p.muxes s.id r.0 }, r.1)
    else (p, fail wrong_state)

-- `return rc < 0 ? -1 : rc;`, `return rc < 0 ? -1 : 0;` and `return written;`
pub data Return : Type 0 where
  result zero_result as_is : Return

abbrev pub returned : Return → Endpoint × Code → Endpoint × Code
returned result (p, value n) = (p, value n)
returned result (p, fail e) = refuse p e
returned zero_result (p, value n) = (p, value 0)
returned zero_result (p, fail e) = refuse p e
returned as_is (p, value n) = (p, value n)
returned as_is (p, fail e) = (set_error p e, fail e)

-- what all do for the stream that is found, which some want to be connected
unfoldable pub on_stream :
    Endpoint
    → Bool
    → Return
    → (MultiplexHandler → MultiplexHandler × Code)
    → Option Stream
    → Endpoint × Code
on_stream p wants_connected how op none = refuse p not_exist
on_stream p wants_connected how op (some s) =
    if wants_connected && not (s.state == connected)
    then refuse p wrong_state
    else returned how (mux_call p s op)

abbrev pub data_buffer : List ℕ → FlexBuffer
data_buffer bytes =
    flex_buffer_from (replicate (length bytes + padding_len) 0) padding_len bytes (length bytes)

module _ (env : ℕ → Multiplex.Env) (now : Timeval) where
  unfoldable pub stream_open_channel : Endpoint → ℕ → Option (List ℕ) → Endpoint × Code
  stream_open_channel p stream cookie =
      if stream == 0
      then refuse p invalid_args
      else on_stream p true result (λ h. open_channel (env stream) now h user cookie 0)
          (get_stream p.session.streams stream)

  unfoldable pub stream_close_channel : Endpoint → ℕ → ℕ → Endpoint × Code
  stream_close_channel p stream channel =
      if stream == 0
      then refuse p invalid_args
      else on_stream p false zero_result (λ h. close_channel (env stream) h channel)
          (get_stream p.session.streams stream)

  unfoldable pub stream_write_channel : Endpoint → ℕ → ℕ → List ℕ → Endpoint × Code
  stream_write_channel p stream channel bytes =
      if stream == 0 || (length bytes == 0 || ltb max_user_data_len (length bytes))
      then refuse p invalid_args
      else on_stream p true as_is
          (λ h. write_channel (env stream) now h channel (data_buffer bytes))
          (get_stream p.session.streams stream)

  unfoldable pub stream_pend_channel : Endpoint → ℕ → ℕ → Endpoint × Code
  stream_pend_channel p stream channel =
      if stream == 0 || channel == 0
      then refuse p invalid_args
      else on_stream p false zero_result (λ h. pend_channel (env stream) now h channel)
          (get_stream p.session.streams stream)

  unfoldable pub stream_resume_channel : Endpoint → ℕ → ℕ → Endpoint × Code
  stream_resume_channel p stream channel =
      if stream == 0 || channel == 0
      then refuse p invalid_args
      else on_stream p false zero_result (λ h. resume_channel (env stream) now h channel)
          (get_stream p.session.streams stream)

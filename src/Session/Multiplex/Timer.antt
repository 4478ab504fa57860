-- ===== src/Session/Multiplex/Timer.antt =====
-- The rest of session/multiplex_handler.c that the stream's handlers and the timer call: the
-- checkpoint, on_data, on_state_changed and write. The timer reads the clock once, as `now`.
pub mod Laws
pub mod Interval
use my_test_module.Prelude.{
  ℕ, ◌+◌, ◌-◌, ◌*◌, ◌/◌, ◌%◌, ◌^◌, Bool, true, false, not, ◌&&◌, ◌||◌, List, [], ◌∷◌, Option, none,
  some, ltb, leb, ◌==◌, if◌then◌else◌,
}
use my_test_module.Prelude.Returns.{Code, value, fail}
use my_test_module.Session.FlexBuffer.{FlexBuffer, contents}
use my_test_module.Session.PacketType
use my_test_module.Session.Channels.{Channel, Channels, Timeval}
use my_test_module.Session.Reassembly.{notify_data}
use my_test_module.Session.Multiplex.{
  MultiplexHandler, Env, notify, send_packet, drop_channel, update_channel, channel_closed,
  stream_state, normal, error, timed_out,
}
use my_test_module.Session.Multiplex.Receive.{notify_packet}
use my_test_module.Session.Multiplex.Client.{write_channel, close_channels, is_zero}

-- The difference of two numbers as an `int`: its 32 bits.
abbrev pub int_sub : ℕ → ℕ → ℕ
int_sub a b = (a + 2 ^ 32 * b - b) % 2 ^ 32

-- `(int)((now.tv_usec - t.tv_usec) / 1000)`, a division that rounds towards 0
abbrev pub milliseconds : ℕ → ℕ → ℕ
milliseconds now t =
    if leb t now then int_sub ((now - t) / 1000) 0 else int_sub 0 ((t - now) / 1000)

-- the `interval` from one time to another, which wraps as an `int` does on the usual machines
unfoldable pub interval : Timeval → Timeval → ℕ
interval now t = (int_sub (now.sec * 1000) (t.sec * 1000) + milliseconds now.usec t.usec) % 2 ^ 32

-- `i >= bound` for two `int`s, where a number from 2 ^ 31 on is negative
abbrev pub reaches : ℕ → ℕ → Bool
reaches i bound = leb ((bound + 2 ^ 31) % 2 ^ 32) ((i + 2 ^ 31) % 2 ^ 32)

abbrev pub keepalive_timeout_interval : ℕ
keepalive_timeout_interval = 130000

abbrev pub keepalive_interval : ℕ
keepalive_interval = 30000

-- The two tests that close a channel. The timeout is the 32 bits of an `int`, and so is the product,
-- which wraps as the interval does.
unfoldable pub is_expired : Timeval → Channel → Bool
is_expired now ch =
    not (ch.timeout == 0) && reaches (interval now ch.last_activity) (ch.timeout * 1000 % 2 ^ 32)
    || reaches (interval now ch.remote_timestamp) keepalive_timeout_interval

unfoldable pub keep_alive : Env → Timeval → MultiplexHandler → Channel → MultiplexHandler
keep_alive env now h ch =
    let (sent, rc) = send_packet env h PacketType.channel_keep_alive 0 ch.id ch.remote_id none in
    if not (reaches (interval now ch.local_timestamp) keepalive_interval)
    then h
    else if is_zero rc
    then update_channel sent (record ch { local_timestamp = now })
    else sent

-- one round of the loop
unfoldable pub check_channel : Env → Timeval → MultiplexHandler → Channel → MultiplexHandler
unfolding is_expired keep_alive
check_channel env now h ch =
    if is_expired now ch
    then drop_channel env (notify h (channel_closed ch.id timed_out)) ch.id
    else keep_alive env now h ch

-- the loop over the channels of the table
unfoldable pub check_each : Env → Timeval → Channels → MultiplexHandler → MultiplexHandler
unfolding check_channel
check_each env now [] h = h
check_each env now (ch ∷ cs) h = check_each env now cs (check_channel env now h ch)

unfoldable pub checkpoint : Env → Timeval → MultiplexHandler → MultiplexHandler
unfolding check_each
checkpoint env now h = check_each env now h.channels h

-- The handler and its incomplete buffer, when the stream hands on what it received.
unfoldable pub on_data :
    Env → Timeval → MultiplexHandler → FlexBuffer → FlexBuffer → MultiplexHandler × FlexBuffer
on_data env now h incomplete_buf buf =
    if h.reliable
    then notify_data (notify_packet env now) h incomplete_buf buf
    else (notify_packet env now h (contents buf), incomplete_buf)

-- IOEXStreamState_closed
abbrev pub stream_closed : ℕ
stream_closed = 6

unfoldable pub on_state_changed : Env → MultiplexHandler → ℕ → MultiplexHandler
on_state_changed env h state =
    notify
      (if leb stream_closed state
        then close_channels env h (if state == stream_closed then normal else error)
        else h)
      (stream_state state)

unfoldable pub write : Env → Timeval → MultiplexHandler → FlexBuffer → MultiplexHandler × Code
write env now h buf = write_channel env now h 0 buf

-- ===== src/Session/Multiplex/Client/Errors.antt =====
-- When the operations on a channel of session/multiplex_handler.c refuse.
use my_test_module.Prelude.{ℕ, ◌≡◌, ◌≢◌, refl, false, none, some, ==_of_ne}
use my_test_module.Prelude.Returns.{fail}
use my_test_module.Session.FlexBuffer.{FlexBuffer}
use my_test_module.Session.Channels.{Channel, Timeval, channels_get}
use my_test_module.Session.Multiplex.{MultiplexHandler, Env}
use my_test_module.Session.Multiplex.Client.{
  close_channel, write_channel, pend_channel, resume_channel, signal_channel, is_connected,
  not_exist, wrong_state,
}

module _ (env : Env) (now : Timeval) (h : MultiplexHandler) (cid : ℕ) (buf : FlexBuffer) where
  -- For an id other than 0 that no channel has, close, write, pend and resume fail with the error
  -- of what does not exist, send nothing and change nothing.
  pub unknown_channel :
      cid ≢ 0
      → channels_get h.channels cid ≡ none
      → (close_channel env h cid ≡ (h, fail not_exist))
        × (write_channel env now h cid buf ≡ (h, fail not_exist))
        × (pend_channel env now h cid ≡ (h, fail not_exist))
        × (resume_channel env now h cid ≡ (h, fail not_exist))
  unfolding close_channel write_channel pend_channel resume_channel signal_channel
  unknown_channel ne e = (
    rw (close_channel, e) refl,
    rw (write_channel, ==_of_ne cid 0 ne, e) refl,
    rw (signal_channel, e) refl,
    rw (signal_channel, e) refl,
  )

  -- For the id, other than 0, of a channel that is neither open nor pending or whose peer's id is
  -- not known, write, pend and resume fail with the error of a wrong state, send nothing and change
  -- nothing.
  pub unconnected_channel :
      {ch : Channel}
      → cid ≢ 0
      → channels_get h.channels cid ≡ some ch
      → is_connected ch ≡ false
      → (write_channel env now h cid buf ≡ (h, fail wrong_state))
        × (pend_channel env now h cid ≡ (h, fail wrong_state))
        × (resume_channel env now h cid ≡ (h, fail wrong_state))
  unfolding write_channel pend_channel resume_channel signal_channel
  unconnected_channel ne e c = (
    rw (write_channel, ==_of_ne cid 0 ne, e, c) refl,
    rw (signal_channel, e, c) refl,
    rw (signal_channel, e, c) refl,
  )

-- ===== src/Session/Multiplex/Client/Closing.antt =====
-- multiplex_handler_close_channels of session/multiplex_handler.c closes every channel.
use my_test_module.Prelude.{◌≡◌, refl, ap, ◌∙◌, map, [], ◌∷◌, ◌++◌, All}
use mathlib.Core.List.{reverse_aux, reverse, reverse_aux-eq}
use my_test_module.Session.Channels.{Channel, Channels, channels_remove}
use my_test_module.Session.Channels.Laws.{remove_head}
use my_test_module.Session.Multiplex.{
  MultiplexHandler, Env, CloseReason, notify, drop_channel, channel_closed,
}
use my_test_module.Session.Multiplex.Validity.{
  Owns, IsValid, Agree-drop, channels-drop, events-drop, outbox-drop,
}
use my_test_module.Session.Multiplex.Client.{close_each, close_channels}

-- What closing the channels `cs` leaves of `h`.
abbrev Closed : CloseReason → Channels → MultiplexHandler → MultiplexHandler → Type 0
Closed reason cs h h' =
    (h'.channels ≡ [])
    × (h'.events ≡ reverse_aux (map (λ (c : Channel). channel_closed c.id reason) cs) h.events)
    × (h'.outbox ≡ h.outbox)
    × IsValid h'

module _ (env : Env) (reason : CloseReason) where
  close_each-Closed :
      (cs : Channels) (h : MultiplexHandler)
      → IsValid h
      → h.channels ≡ cs
      → Closed reason cs h (close_each env reason cs h)
  unfolding close_each
  close_each-Closed [] h v e = (e, refl, refl, v)
  close_each-Closed (ch ∷ cs) h v e =
      let own : All (λ (c : Channel). Owns h.channel_ids c.id) (ch ∷ cs) = rw e at v.owned in
      let dropped = drop_channel env h ch.id in
      let rest : dropped.channels ≡ cs =
        channels-drop env h ch.id ∙ ap (λ t. channels_remove t ch.id) e ∙ remove_head ch cs in
      let (empty, events, outbox, valid) =
        close_each-Closed cs (notify dropped (channel_closed ch.id reason))
          (Agree-drop env h ch.id v own.0) rest in
      let told = map (λ (c : Channel). channel_closed c.id reason) cs in
      (
        empty,
        events
            ∙ ap (λ t. reverse_aux told (channel_closed ch.id reason ∷ t))
                (events-drop env h ch.id),
        outbox ∙ outbox-drop env h ch.id,
        valid,
      )

  -- On a valid handler, close_channels leaves no channel, tells every channel once that it is
  -- closed, in the order of the table, sends nothing, and keeps the handler valid.
  pub close_channels_lem :
      (h : MultiplexHandler)
      → IsValid h
      → let h' = close_channels env h reason in
        (h'.channels ≡ [])
        × (h'.events
            ≡ reverse (map (λ (c : Channel). channel_closed c.id reason) h.channels) ++ h.events)
        × (h'.outbox ≡ h.outbox)
        × IsValid h'
  unfolding close_channels
  close_channels_lem h v =
      let (empty, events, outbox, valid) = close_each-Closed h.channels h v refl in
      (
        empty,
        events
            ∙ reverse_aux-eq (map (λ (c : Channel). channel_closed c.id reason) h.channels)
                h.events,
        outbox,
        valid,
      )

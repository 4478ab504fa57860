-- ===== src/Session/Streams/Mux/Laws.antt =====
-- A channel operation on one stream reaches no other stream's handler and keeps every handler valid.
use my_test_module.Prelude.{
  ℕ, ◌≡◌, ◌≢◌, refl, Bool, true, false, not, ◌&&◌, ◌||◌, Bool-cases, Option-cases, inl, inr, List,
  [], ◌∷◌, Option, some, length, ltb, ◌==◌, ==_of_ne, ==_iff, if_both,
}
use mathlib.Core.Option.{none-ne-some, some-injective}
use mathlib.Core.Path.{subst}
use my_test_module.Prelude.Returns.{Code, value, fail}
use my_test_module.Session.Channels.{Timeval, user}
use my_test_module.Session.Multiplex
use my_test_module.Session.Multiplex.{MultiplexHandler}
use my_test_module.Session.Multiplex.Validity.{IsValid}
use my_test_module.Session.Multiplex.Client.{
  open_channel, close_channel, write_channel, pend_channel, resume_channel,
}
use my_test_module.Session.Multiplex.Client.Invariant.{
  open_channel-IsValid, close_channel-IsValid, write_channel-IsValid, pend_channel-IsValid,
  resume_channel-IsValid,
}
use my_test_module.Session.Streams.{Stream, connected, max_user_data_len, get_stream}
use my_test_module.Session.Streams.Mux.{
  Endpoint, refuse, Return, result, zero_result, as_is, returned, mux_call, on_stream, data_buffer,
  stream_open_channel, stream_close_channel, stream_write_channel, stream_pend_channel,
  stream_resume_channel,
}

abbrev pub AllValid : Endpoint → Type 0
AllValid p = (i : ℕ) → IsValid (p.muxes i)

-- Every handler is valid, those of the other streams are as before, and so are the streams.
pub record Keeps (p : Endpoint) (stream : ℕ) (q : Endpoint) : Type 0 where
  pub valid : AllValid q
  pub others : (i : ℕ) → stream ≢ i → q.muxes i ≡ p.muxes i
  pub streams : q.session.streams ≡ p.session.streams

id-get_stream : (ss : List Stream) (id : ℕ) {s : Stream} → get_stream ss id ≡ some s → s.id ≡ id
unfolding get_stream
id-get_stream [] id e = absurd (none-ne-some _ e)
id-get_stream (t ∷ ss) id {s} e = elim (Bool-cases (t.id == id)) [
  | inl q ↦
      let same : some t ≡ some s = rw q at e in
      subst (λ (x : Stream). x.id ≡ id) (some-injective _ _ same) ((==_iff t.id id).0 q)
  | inr q ↦ id-get_stream ss id (rw q at e)
]

refuse-Keeps : (p : Endpoint) (stream : ℕ) (e : ℕ) → AllValid p → Keeps p stream (refuse p e).0
refuse-Keeps p stream e v = record { valid = v; others = λ i ne. refl; streams = refl }

Keeps-returned :
    (how : Return) (p : Endpoint) (stream : ℕ) (r : Endpoint × Code)
    → Keeps p stream r.0
    → Keeps p stream (returned how r).0
Keeps-returned result p stream (q, value n) k = k
Keeps-returned result p stream (q, fail e) k = record {
  valid = k.valid;
  others = k.others;
  streams = k.streams;
}
Keeps-returned zero_result p stream (q, value n) k = k
Keeps-returned zero_result p stream (q, fail e) k = record {
  valid = k.valid;
  others = k.others;
  streams = k.streams;
}
Keeps-returned as_is p stream (q, value n) k = k
Keeps-returned as_is p stream (q, fail e) k = record {
  valid = k.valid;
  others = k.others;
  streams = k.streams;
}

-- an operation that keeps a handler valid
abbrev Safe : (MultiplexHandler → MultiplexHandler × Code) → Type 0
Safe op = (h : MultiplexHandler) → IsValid h → IsValid (op h).0

Keeps-mux_call :
    (p : Endpoint) (s : Stream) (op : MultiplexHandler → MultiplexHandler × Code)
    → AllValid p
    → Safe op
    → Keeps p s.id (mux_call p s op).0
unfolding mux_call
Keeps-mux_call p s op v safe = elim (Bool-cases s.multiplexing) [
  | inl e ↦ rw e (record {
    valid = λ i. if_both IsValid (s.id == i) (safe (p.muxes s.id) (v s.id)) (v i);
    others = λ i ne. rw (==_of_ne s.id i ne) refl;
    streams = refl;
  })
  | inr e ↦ rw e (record { valid = v; others = λ i ne. refl; streams = refl })
]

Keeps-on_stream :
    (p : Endpoint) (stream : ℕ) (wants : Bool) (how : Return)
    (op : MultiplexHandler → MultiplexHandler × Code)
    → AllValid p
    → Safe op
    → Keeps p stream (on_stream p wants how op (get_stream p.session.streams stream)).0
unfolding on_stream
Keeps-on_stream p stream wants how op v safe =
    elim (Option-cases (get_stream p.session.streams stream)) [
      | inl missing ↦ rw missing (refuse-Keeps p stream _ v)
      | inr (s, found) ↦
          let own = id-get_stream p.session.streams stream found in
          let called =
            subst (λ i. Keeps p i (mux_call p s op).0) own (Keeps-mux_call p s op v safe) in
          rw found (
            if_both (λ (r : Endpoint × Code). Keeps p stream r.0)
              (wants && not (s.state == connected)) (refuse-Keeps p stream _ v)
              (Keeps-returned how p stream (mux_call p s op) called))
    ]

module _ (env : ℕ → Multiplex.Env) (now : Timeval) (p : Endpoint) (v : AllValid p)
    (stream : ℕ) where
  abbrev KeptBy : Endpoint × Code → Type 0
  KeptBy r = Keeps p stream r.0

  -- The calls that open, close, write, pend and resume a channel of a stream, whatever they answer,
  -- keep every multiplex handler of the session valid, leave the handlers of the other streams as
  -- they were, and change no stream.
  pub stream_channel-Keeps :
      (channel : ℕ) (cookie : Option (List ℕ)) (bytes : List ℕ)
      → Keeps p stream (stream_open_channel env now p stream cookie).0
        × (Keeps p stream (stream_close_channel env now p stream channel).0
            × (Keeps p stream (stream_write_channel env now p stream channel bytes).0
                × (Keeps p stream (stream_pend_channel env now p stream channel).0
                    × Keeps p stream (stream_resume_channel env now p stream channel).0)))
  unfolding stream_open_channel stream_close_channel stream_write_channel stream_pend_channel
      stream_resume_channel
  stream_channel-Keeps channel cookie bytes =
      let mux = env stream in
      let refused : Keeps p stream (refuse p 1).0 = refuse-Keeps p stream 1 v in
      (
        if_both KeptBy (stream == 0) refused (
            Keeps-on_stream p stream true result (λ h. open_channel mux now h user cookie 0) v
              (λ h. open_channel-IsValid mux now h user cookie 0)),
        (
          if_both KeptBy (stream == 0) refused (
              Keeps-on_stream p stream false zero_result (λ h. close_channel mux h channel) v
                (λ h. close_channel-IsValid mux h channel)),
          (
            if_both KeptBy
                (stream == 0 || (length bytes == 0 || ltb max_user_data_len (length bytes))) refused
                (Keeps-on_stream p stream true as_is
                  (λ h. write_channel mux now h channel (data_buffer bytes)) v
                  (λ h. write_channel-IsValid mux now h channel (data_buffer bytes))),
            (
              if_both KeptBy (stream == 0 || channel == 0) refused (
                  Keeps-on_stream p stream false zero_result (λ h. pend_channel mux now h channel) v
                    (λ h. pend_channel-IsValid mux now h channel)),
              if_both KeptBy (stream == 0 || channel == 0) refused (
                  Keeps-on_stream p stream false zero_result (λ h. resume_channel mux now h channel)
                    v (λ h. resume_channel-IsValid mux now h channel)),
            ),
          ),
        ),
      )

-- ===== src/Session/Streams/Order.antt =====
-- The order of what a session calls when it asks its peer and when it starts.
use my_test_module.Prelude.{
  ℕ, ◌≡◌, ◌≢◌, refl, ap, Bool, true, false, Bool-cases, List, [], ◌∷◌, ◌++◌, map, ◌⊎◌, inl, inr,
  length, take, ◌-◌, ==_of_ne, All,
}
use my_test_module.Prelude.Returns.{Code, value, fail, is_fail}
use my_test_module.Session.Multiplex.Client.{wrong_state}
use my_test_module.Session.Streams.{
  Stream, Session, Env, Action, pipeline_prepare, apply_remote_sdp, act, refuse, is_zero,
}
use my_test_module.Session.Streams.Request.{
  is_ready, all_ready, start_action, start_each, prepare_each, send_offer, offer, session_request,
  session_start,
}

-- the trace after these calls
abbrev pub onto : List Action → List Action → List Action
onto [] t = t
onto (a ∷ rest) t = onto rest (a ∷ t)

abbrev pub prepares : List Stream → List Action
prepares ss = map (λ s. pipeline_prepare s.id) ss

-- The list has a first element for which the test fails.
abbrev pub FirstNot : (Stream → Bool) → List Stream → (List Stream → Stream → Type 0) → Type 0
FirstNot test ss Q =
    (front : List Stream) × ((s : Stream) × ((back : List Stream) × ((ss ≡ front ++ (s ∷ back))
          × (All (λ t. test t ≡ true) front × ((test s ≡ false) × Q front s)))))

abbrev pub Passed : (Stream → Bool) → List Stream → Type 0
Passed test ss = All (λ t. test t ≡ true) ss

FirstNot-cons :
    {test : Stream → Bool} {P Q : List Stream → Stream → Type 0} (s : Stream) (ss : List Stream)
    → test s ≡ true
    → ((front : List Stream) (t : Stream) → P front t → Q (s ∷ front) t)
    → FirstNot test ss P
    → FirstNot test (s ∷ ss) Q
FirstNot-cons s ss e step (front, (t, (back, (same, (passed, (failed, p)))))) =
    (s ∷ front, (t, (back, (ap (λ l. s ∷ l) same, ((e, passed), (failed, step front t p))))))

all_ready_lem :
    (ss : List Stream)
    → (Passed is_ready ss × (all_ready ss ≡ true))
      ⊎ FirstNot is_ready ss (λ front s. all_ready ss ≡ false)
unfolding all_ready
all_ready_lem [] = inl (tt, refl)
all_ready_lem (s ∷ ss) = elim (Bool-cases (is_ready s)) [
  | inl e ↦ elim (all_ready_lem ss) [
    | inl (passed, all) ↦ inl ((e, passed), rw e all)
    | inr first ↦ inr (FirstNot-cons s ss e (λ front t p. rw e p) first)
  ]
  | inr e ↦ inr ([], (s, (ss, (refl, (tt, (e, rw e refl))))))
]

start_each_lem :
    (ss : List Stream) (w : Session)
    → start_each ss w ≡ record w { trace = onto (map start_action ss) w.trace }
unfolding start_each
start_each_lem [] w = refl
start_each_lem (s ∷ ss) w = start_each_lem ss (act w (start_action s))

module _ (env : Env) where
  abbrev is_prepared : Stream → Bool
  is_prepared s = is_zero (env.prepare s)

  abbrev Stopped : Session → Session × Code → List Stream → Stream → Type 0
  Stopped w r front s =
      r
      ≡ refuse (record w { trace = pipeline_prepare s.id ∷ onto (prepares front) w.trace })
          (env.prepare s)

  prepare_each_lem :
      (ss : List Stream) (w : Session)
      → (Passed is_prepared ss
          × (prepare_each env ss w ≡ (record w { trace = onto (prepares ss) w.trace }, value 0)))
        ⊎ FirstNot is_prepared ss (Stopped w (prepare_each env ss w))
  unfolding prepare_each
  prepare_each_lem [] w = inl (tt, refl)
  prepare_each_lem (s ∷ ss) w =
      let w1 = act w (pipeline_prepare s.id) in
      elim (Bool-cases (is_prepared s)) [
        | inl e ↦ elim (prepare_each_lem ss w1) [
          | inl (passed, run) ↦ inl ((e, passed), rw e run)
          | inr first ↦ inr (FirstNot-cons s ss e (λ front t p. rw e p) first)
        ]
        | inr e ↦ inr ([], (s, (ss, (refl, (tt, (e, rw e refl))))))
      ]

  module _ (w : Session) where
    -- the session that asks, with what it has called
    abbrev pub asking : List Action → Session
    asking t = record w { offerer = true; trace = t }

    -- Every stream is prepared and the peer invited; or the local SDP is refused; or a stream is, and
    -- none behind it is prepared.
    abbrev pub Requested : Session × Code → Type 0
    Requested r =
        (Passed is_prepared w.streams
          × ((r
              ≡ send_offer env (asking (onto (prepares w.streams) w.trace))
                  (env.encode_local_sdp w.streams))))
        ⊎ FirstNot is_prepared w.streams (Stopped (asking w.trace) r)

    -- A session with streams whose transport takes the role asks its peer only when every stream
    -- was prepared, each once and in order, and its answer is then that of the local SDP or of the
    -- invitation; at the first stream that is refused it stops with that error.
    pub session_request_lem :
        length w.streams ≢ 0 → env.set_offer true ≡ true → Requested (session_request env w)
    unfolding session_request
    session_request_lem some_stream offers =
        rw (==_of_ne (length w.streams) 0 some_stream, offers)
          (elim (prepare_each_lem w.streams (asking w.trace)) [
            | inl (passed, run) ↦ inl (passed, ap (offer env) run)
            | inr (front, (s, (back, (same, (passed, (failed, p)))))) ↦
                inr (front, (s, (back, (same, (passed, (failed, ap (offer env) p))))))
          ])

    module _ (sdp : List ℕ) where
      abbrev bytes : List ℕ
      bytes = take (length sdp - 1) sdp

      -- Either every stream is ready and what the transport says of the SDP decides; or one is not.
      abbrev pub Started : Session × Code → Type 0
      Started r =
          (Passed is_ready w.streams
            × ((is_fail (env.apply bytes) ≡ true
                  → r ≡ refuse (act w (apply_remote_sdp bytes)) (env.apply bytes))
                × (is_fail (env.apply bytes) ≡ false
                    → r ≡ (
                      record w {
                        trace =
                            onto (map start_action w.streams) (apply_remote_sdp bytes ∷ w.trace);
                      },
                      value 0,
                    ))))
          ⊎ FirstNot is_ready w.streams (λ front s. r ≡ refuse w (fail wrong_state))

      -- With streams and a remote SDP that is not empty: if a stream is not ready, session_start
      -- fails with the error of a wrong state and calls nothing. Otherwise it applies the SDP
      -- without its last byte and fails with the error of that, or starts each stream once, in
      -- order, those that are deactivated by a report of that state.
      pub session_start_lem :
          length w.streams ≢ 0 → length sdp ≢ 0 → Started (session_start env w sdp)
      unfolding session_start
      session_start_lem some_stream some_byte =
          rw (==_of_ne (length w.streams) 0 some_stream, ==_of_ne (length sdp) 0 some_byte)
            (elim (all_ready_lem w.streams) [
              | inl (passed, all) ↦ inl (
                passed,
                (
                  λ e. rw (all, e) refl,
                  λ e.
                      rw (all, e)
                        (ap (λ x. (x, value 0))
                          (start_each_lem w.streams (act w (apply_remote_sdp bytes)))),
                ),
              )
              | inr (front, (s, (back, (same, (passed, (failed, p)))))) ↦
                  inr (front, (s, (back, (same, (passed, (failed, rw p refl))))))
            ])

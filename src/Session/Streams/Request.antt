-- ===== src/Session/Streams/Request.antt =====
-- session/session.c: how a session asks its peer, answers, starts and sends.
use my_test_module.Prelude.{
  ℕ, ◌-◌, Bool, true, false, not, ◌&&◌, ◌||◌, List, [], ◌∷◌, ◌++◌, ◌⊎◌, inl, inr, Option, none,
  some, length, take, ltb, ◌==◌, if◌then◌else◌,
}
use my_test_module.Prelude.Returns.{Code, value, fail, is_fail}
use my_test_module.Carrier.Files.{invalid_args, not_exist}
use my_test_module.Session.Multiplex.Client.{wrong_state}
use my_test_module.Session.Streams.{
  Stream, Session, Env, Action, pipeline_prepare, pipeline_start, pipeline_write,
  fire_state_changed, invite_friend, reply_friend_invite, apply_remote_sdp, act, refuse, is_zero,
  extension, transport_ready, connected, deactivated, max_user_data_len, not_implemented,
  get_stream,
}

abbrev pub is_ready : Stream → Bool
is_ready s = s.state == transport_ready

unfoldable pub all_ready : List Stream → Bool
all_ready [] = true
all_ready (s ∷ ss) = is_ready s && all_ready ss

-- what IOEX_session_start calls for a stream
abbrev pub start_action : Stream → Action
start_action s = if s.deactivate then fire_state_changed s.id deactivated else pipeline_start s.id

unfoldable pub start_each : List Stream → Session → Session
start_each [] w = w
start_each (s ∷ ss) w = start_each ss (act w (start_action s))

module _ (env : Env) where
  -- the loop at `reprepare`
  unfoldable pub prepare_each : List Stream → Session → Session × Code
  prepare_each [] w = (w, value 0)
  prepare_each (s ∷ ss) w =
      let w1 = act w (pipeline_prepare s.id) in
      let rest = prepare_each ss w1 in
      if is_zero (env.prepare s) then rest else refuse w1 (env.prepare s)

  -- the invitation, with its terminal zero
  abbrev pub send_offer : Session → List ℕ ⊎ ℕ → Session × Code
  send_offer w (inr e) = refuse w (fail e)
  send_offer w (inl sdp) = (
    act (record w { has_callback = true }) (invite_friend (w.peer ++ extension) (sdp ++ (0 ∷ []))),
    env.invite (sdp ++ (0 ∷ [])),
  )

  abbrev pub offer : Session × Code → Session × Code
  offer (w, fail e) = (w, fail e)
  offer (w, value k) = send_offer w (env.encode_local_sdp w.streams)

  unfoldable pub session_request : Session → Session × Code
  session_request w =
      let w1 = record w { offerer = true } in
      if length w.streams == 0
      then refuse w (fail wrong_state)
      else if not (env.set_offer true)
      then refuse w1 (fail wrong_state)
      else offer (prepare_each w.streams w1)

  abbrev pub send_reply : Session → ℕ → Option (List ℕ) → Option (List ℕ) → Session × Code
  send_reply w status reason sdp =
      (act w (reply_friend_invite (w.peer ++ extension) status reason sdp), env.reply status sdp)

  abbrev pub answer_with : Session → Option (List ℕ) → List ℕ ⊎ ℕ → Session × Code
  answer_with w reason (inr e) = refuse w (fail e)
  answer_with w reason (inl sdp) = send_reply w 0 reason (some (sdp ++ (0 ∷ [])))

  abbrev pub answer : Option (List ℕ) → Session × Code → Session × Code
  answer reason (w, fail e) = (w, fail e)
  answer reason (w, value k) = answer_with w reason (env.encode_local_sdp w.streams)

  abbrev pub has_none : Option (List ℕ) → Bool
  has_none none = true
  has_none (some r) = false

  unfoldable pub session_reply_request : Session → ℕ → Option (List ℕ) → Session × Code
  session_reply_request w status reason =
      let w1 = record w { offerer = false } in
      if not (status == 0) && has_none reason
      then refuse w (fail invalid_args)
      else if not (env.set_offer false)
      then refuse w1 (fail wrong_state)
      else if not (status == 0)
      then send_reply w1 status reason none
      else if length w.streams == 0
      then refuse w1 (fail wrong_state)
      else answer reason (prepare_each w.streams w1)

  unfoldable pub session_start : Session → List ℕ → Session × Code
  session_start w sdp =
      let bytes = take (length sdp - 1) sdp in
      let w1 = act w (apply_remote_sdp bytes) in
      if length sdp == 0
      then refuse w (fail invalid_args)
      else if length w.streams == 0
      then refuse w (fail wrong_state)
      else if not (all_ready w.streams)
      then refuse w (fail wrong_state)
      else if is_fail (env.apply bytes)
      then refuse w1 (env.apply bytes)
      else (start_each w.streams w1, value 0)

  -- `sent` is an error or what was sent
  abbrev pub write_answer : Session → Code → Session × Code
  write_answer w (value k) = (w, value k)
  write_answer w (fail e) = refuse w (fail e)

  unfoldable pub stream_write : Session → ℕ → List ℕ → Session × Code
  stream_write w stream data_bytes =
      if stream == 0 || (length data_bytes == 0 || ltb max_user_data_len (length data_bytes))
      then refuse w (fail invalid_args)
      else elim (get_stream w.streams stream) [
        | none ↦ refuse w (fail not_exist)
        | some s ↦
            if s.kind == 0 || s.kind == 1
            then refuse w (fail not_implemented)
            else if not (s.state == connected)
            then refuse w (fail wrong_state)
            else write_answer (act w (pipeline_write s.id data_bytes)) (env.write s data_bytes)
      ]

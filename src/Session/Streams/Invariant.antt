-- ===== src/Session/Streams/Invariant.antt =====
-- The streams of a session have ids of their own, which the heap has handed out.
use my_test_module.Prelude.{
  ℕ, ◌≡◌, refl, sym, ap, ◌∙◌, true, false, ◌||◌, Bool-cases, Option-cases, List, [], ◌∷◌, ◌++◌, ◌⊎◌,
  inl, inr, some, ltb, ◌==◌, ==_of_ne, arith, if_both,
}
use mathlib.Core.Path.{subst}
use mathlib.Core.Bool.{true≢false}
use my_test_module.Prelude.Returns.{Code, value, fail, is_fail}
use my_test_module.Common.IdsHeap.{IdsHeap, ids_heap_alloc}
use my_test_module.Common.IdsHeap.Alloc.{in_use}
use my_test_module.Session.Multiplex.Validity.{Owns}
use my_test_module.Session.Streams.{
  Stream, Session, Env, HandlerKind, multiplexer, reliability, crypto, is_zero, pipeline_init,
  pipeline_stop, get_stream, remove_entry, new_stream, wanted, enable, stream_base_destroy,
  init_stream, connect, with_id, add_stream, remove_stream,
}
use my_test_module.Session.Streams.Entries.{
  Free, IsDistinct-remove_entry, remove_entry-snoc, get_stream-snoc, get_stream-Owns,
}
use my_test_module.Session.Streams.Held.{
  Held, IsValid, Held-alloc, Held-refused, Held-release, Held-snoc, Held-remove_entry,
}

abbrev number : Code → ℕ
number (value n) = n
number (fail e) = e

-- The answer to a new stream with the id: it stands behind the others, or they are as before.
abbrev pub Added : List Stream → ℕ → Session × Code → Type 0
Added ss id r =
    ((r.1 ≡ fail 1) × (r.0.streams ≡ ss))
    ⊎ ((s : Stream) × ((s.id ≡ id)
          × ((s.state ≡ 0) × ((r.1 ≡ value id) × (r.0.streams ≡ ss ++ (s ∷ []))))))

module _ (env : Env) where
  stream_base_destroy-IsValid :
      (w : Session) (id : ℕ)
      → IsValid w
      → Owns w.stream_ids id
      → Free w.streams id
      → IsValid (stream_base_destroy env w id)
        × ((stream_base_destroy env w id).streams ≡ w.streams)
  unfolding stream_base_destroy
  stream_base_destroy-IsValid w id v own away =
      let positive : ltb 0 id ≡ true = ground (arith, own) in
      rw positive (Held-release env w.streams w.stream_ids id v own away, refl)

  init_stream-IsValid :
      (w : Session) (s : Stream)
      → IsValid w
      → Owns w.stream_ids s.id
      → Free w.streams s.id
      → s.state ≡ 0
      → IsValid (init_stream env w s).0 × Added w.streams s.id (init_stream env w s)
  unfolding init_stream
  init_stream-IsValid w s v own away zeroed = elim (Bool-cases (is_fail (env.init s))) [
    | inl e ↦
        let kept =
          stream_base_destroy-IsValid (record w { trace = pipeline_init s.id ∷ w.trace }) s.id v own
            away in
        rw e (kept.0, inl (refl, kept.1))
    | inr e ↦
        rw e
          (Held-snoc w.streams w.stream_ids s v own away, inr (s, (refl, (zeroed, (refl, refl)))))
  ]

  enable-IsValid :
      (w : Session) (k : HandlerKind)
      → ((enable w k).streams ≡ w.streams) × ((enable w k).stream_ids ≡ w.stream_ids)
  enable-IsValid w multiplexer = (refl, refl)
  enable-IsValid w reliability = (refl, refl)
  enable-IsValid w crypto = (refl, refl)

  connect-IsValid :
      (ks : List HandlerKind) (w : Session) (s : Stream)
      → IsValid w
      → Owns w.stream_ids s.id
      → Free w.streams s.id
      → s.state ≡ 0
      → IsValid (connect env ks w s).0 × Added w.streams s.id (connect env ks w s)
  unfolding connect
  connect-IsValid [] w s v own away zeroed = init_stream-IsValid w s v own away zeroed
  connect-IsValid (k ∷ ks) w s v own away zeroed =
      let w1 = enable w k in
      let (same, ids) = enable-IsValid w k in
      let v1 : IsValid w1 =
        subst (λ i. Held w1.streams i) (sym ids)
          (subst (λ ss. Held ss w.stream_ids) (sym same) v) in
      let own1 : Owns w1.stream_ids s.id = subst (λ i. Owns i s.id) (sym ids) own in
      let away1 : Free w1.streams s.id = subst (λ ss. Free ss s.id) (sym same) away in
      elim (Bool-cases (is_fail (env.create_handler k))) [
        | inl e ↦
            let kept = stream_base_destroy-IsValid w1 s.id v1 own1 away1 in
            rw e (kept.0, inl (refl, kept.1 ∙ same))
        | inr e ↦
            let s1 = record s { handlers = s.handlers ++ (k ∷ []) } in
            let rest = connect-IsValid ks w1 s1 v1 own1 away1 zeroed in
            rw e (rest.0, subst (λ ss. Added ss s.id (connect env ks w1 s1)) same rest.1)
      ]

  -- A new id is one that was not in use.
  abbrev pub Fresh : Session → Session × Code → Type 0
  Fresh w r =
      ((r.1 ≡ fail 1) × (r.0.streams ≡ w.streams))
      ⊎ ((id : ℕ) × ((in_use w.stream_ids id ≡ false)
            × (Free w.streams id
                × ((s : Stream) × ((s.id ≡ id)
                      × ((s.state ≡ 0)
                          × ((r.1 ≡ value id) × (r.0.streams ≡ w.streams ++ (s ∷ [])))))))))

  with_id-IsValid :
      (w : Session) (kind options : ℕ) (ids : IdsHeap) (rc : Code)
      → IsValid w
      → ids_heap_alloc w.stream_ids ≡ (ids, rc)
      → IsValid (with_id env w kind options (ids, rc)).0
        × Fresh w (with_id env w kind options (ids, rc))
  unfolding with_id
  with_id-IsValid w kind options ids (fail e) v r = (Held-refused v r, inl (refl, refl))
  with_id-IsValid w kind options ids (value id) v r =
      let (held, (own, (away, unused))) = Held-alloc v r in
      let s = new_stream id kind options in
      let run = connect-IsValid (wanted s) (record w { stream_ids = ids }) s held own away refl in
      rw (==_of_ne id 0 (omega (arith, own)))
        (run.0, elim run.1 [ inl kept ↦ inl kept | inr added ↦ inr (id, (unused, (away, added))) ])

  -- Adding a stream to a valid session, one whose streams have different ids that the heap has
  -- handed out, leaves it valid. It fails and leaves the streams as they were, or gives an id that
  -- was not in use and that no stream has, and the new stream, in the state 0, stands behind the
  -- others.
  pub add_stream-IsValid :
      (w : Session) (kind options : ℕ)
      → IsValid w
      → IsValid (add_stream env w kind options).0 × Fresh w (add_stream env w kind options)
  unfolding add_stream
  add_stream-IsValid w kind options v = elim (Bool-cases (kind == 0 || kind == 1)) [
    | inl e ↦ rw e (v, inl (refl, refl))
    | inr e ↦ elim (Bool-cases (is_zero env.create_stream)) [
      | inl made ↦
          rw (e, made)
            (with_id-IsValid w kind options (ids_heap_alloc w.stream_ids).0
              (ids_heap_alloc w.stream_ids).1 v refl)
      | inr refused ↦ rw (e, refused) (v, inl (refl, refl))
    ]
  ]

  remove_stream-IsValid :
      (w : Session) (stream : ℕ) → IsValid w → IsValid (remove_stream env w stream).0
  unfolding remove_stream
  remove_stream-IsValid w stream v = elim (Bool-cases (stream == 0)) [
    | inl e ↦ rw e v
    | inr e ↦ elim (Option-cases (get_stream w.streams stream)) [
      | inl missing ↦ rw (e, missing) v
      | inr (s, found) ↦
          rw (e, found)
            ((stream_base_destroy-IsValid
              (record w {
                streams = remove_entry w.streams s.id;
                trace = pipeline_stop s.id ∷ w.trace;
              })
              s.id (Held-remove_entry w.streams w.stream_ids s.id v)
              (get_stream-Owns w.stream_ids w.streams stream v.owned found)
              (IsDistinct-remove_entry w.streams s.id v.distinct).1).0)
    ]
  ]

  streams-destroy : (w : Session) (id : ℕ) → (stream_base_destroy env w id).streams ≡ w.streams
  unfolding stream_base_destroy
  streams-destroy w id = if_both (λ (u : Session). u.streams ≡ w.streams) (ltb 0 id) refl refl

  remove_last :
      (w : Session) (ss : List Stream) (s : Stream) (id : ℕ)
      → IsValid w
      → Free ss id
      → s.id ≡ id
      → w.streams ≡ ss ++ (s ∷ [])
      → ((remove_stream env w id).1 ≡ value 0) × ((remove_stream env w id).0.streams ≡ ss)
  unfolding remove_stream
  remove_last w ss s id v away same last =
      let free : Free ss s.id = subst (λ i. Free ss i) (sym same) away in
      let found : get_stream w.streams id ≡ some s =
        ap (λ l. get_stream l id) last
        ∙ ap (λ i. get_stream (ss ++ (s ∷ [])) i) (sym same)
        ∙ get_stream-snoc ss s free in
      let own = get_stream-Owns w.stream_ids w.streams id v.owned found in
      rw (==_of_ne id 0 (omega (arith, own.0, same)), found)
        (
          refl,
          streams-destroy
                (record w {
                  streams = remove_entry w.streams s.id;
                  trace = pipeline_stop s.id ∷ w.trace;
                })
                s.id
              ∙ ap (λ l. remove_entry l s.id) last
              ∙ remove_entry-snoc ss s free,
        )

  -- Removing a stream by the id that adding it to a valid session gave succeeds and leaves the
  -- streams as they were.
  pub add-remove :
      (w : Session) (kind options id : ℕ)
      → IsValid w
      → (add_stream env w kind options).1 ≡ value id
      → ((remove_stream env (add_stream env w kind options).0 id).1 ≡ value 0)
        × ((remove_stream env (add_stream env w kind options).0 id).0.streams ≡ w.streams)
  add-remove w kind options id v done =
      let (valid, fresh) = add_stream-IsValid w kind options v in
      elim fresh [
        | inl (failed, kept) ↦ absurd (true≢false (ap is_fail (sym failed ∙ done)))
        | inr (i, (unused, (away, (s, (same, (zeroed, (answer, last))))))) ↦
            let ids : i ≡ id = ap number (sym answer ∙ done) in
            remove_last (add_stream env w kind options).0 w.streams s id valid
              (subst (λ j. Free w.streams j) ids away) (same ∙ ids) last
      ]

-- ===== src/Session/Streams/Progress.antt =====
-- With an id left, and handlers that can be made, IOEX_session_add_stream adds the stream.
use my_test_module.Prelude.{
  ℕ, ◌<◌, ◌≤◌, ◌≡◌, ◌≢◌, refl, sym, ◌∙◌, true, false, List, [], ◌∷◌, ◌++◌, ==_of_ne, arith,
}
use mathlib.Core.Bool.{true≢false}
use my_test_module.Prelude.Returns.{Code, value, fail, is_fail}
use my_test_module.Common.IdsHeap.{IdsHeap, ids_heap_alloc}
use my_test_module.Common.IdsHeap.Alloc.{in_use, ids_heap_alloc_lem, Allocated}
use my_test_module.Session.Streams.{
  Stream, Session, Env, HandlerKind, is_zero, new_stream, wanted, enable, init_stream, connect,
  with_id, add_stream,
}
use my_test_module.Session.Streams.Held.{IsValid}

-- The transport and the handlers refuse nothing.
pub record IsWilling (env : Env) : Type 0 where
  pub makes : is_zero env.create_stream ≡ true
  pub connects : (k : HandlerKind) → is_fail (env.create_handler k) ≡ false
  pub initialises : (s : Stream) → is_fail (env.init s) ≡ false

module _ (env : Env) (willing : IsWilling env) where
  connect_willing :
      (ks : List HandlerKind) (w : Session) (s : Stream) → (connect env ks w s).1 ≡ value s.id
  unfolding connect init_stream
  connect_willing [] w s = rw (willing.initialises s) refl
  connect_willing (k ∷ ks) w s =
      rw (willing.connects k)
        (connect_willing ks (enable w k) (record s { handlers = s.handlers ++ (k ∷ []) }))

  with_id_willing :
      (w : Session) (kind options : ℕ) (r : IdsHeap × Code) (j : ℕ)
      → Allocated w.stream_ids r
      → 0 < j
      → j ≤ w.stream_ids.max_index
      → in_use w.stream_ids j ≡ false
      → (id : ℕ) × ((with_id env w kind options r).1 ≡ value id)
  unfolding with_id
  with_id_willing w kind options (ids, fail e) j a positive low unused =
      absurd (true≢false (sym (a.2 j positive low) ∙ unused))
  with_id_willing w kind options (ids, value id) j a positive low unused =
      let s = new_stream id kind options in
      (
        id,
        rw (==_of_ne id 0 (omega (arith, a.0)))
            (connect_willing (wanted s) (record w { stream_ids = ids }) s),
      )

  -- In a valid session with an id left in the heap, a stream that is neither audio nor video is
  -- added with success, if the transport and the handlers refuse nothing.
  pub add_stream_willing :
      (w : Session) (kind options j : ℕ)
      → IsValid w
      → kind ≢ 0
      → kind ≢ 1
      → 0 < j
      → j ≤ w.stream_ids.max_index
      → in_use w.stream_ids j ≡ false
      → (id : ℕ) × ((add_stream env w kind options).1 ≡ value id)
  unfolding add_stream
  add_stream_willing w kind options j v audio video positive low unused =
      rw (==_of_ne kind 0 audio, ==_of_ne kind 1 video, willing.makes)
        (with_id_willing w kind options (ids_heap_alloc w.stream_ids) j
          (ids_heap_alloc_lem w.stream_ids v.ids_valid) positive low unused)

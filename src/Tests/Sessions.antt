-- ===== src/Tests/Sessions.antt =====
-- session/session.c: a session with the peer "B", without streams and with one that is ready.
use my_test_module.Prelude.{ℕ, ◌≡◌, refl, true, false, List, [], ◌∷◌, inl, none, some, arith}
use my_test_module.Prelude.Returns.{value}
use my_test_module.Common.Bitset
use my_test_module.Common.Bitset.Isset.{masked_shift}
use my_test_module.Session.Streams.{
  Stream, Session, Env, crypto, add_stream, remove_stream, with_id, connect, init_stream,
  new_stream,
}
use my_test_module.Session.Streams.Request.{session_request, session_start}
use my_test_module.Session.Streams.Held.{IsValid}
use my_test_module.Session.Streams.Invariant.{Fresh, add_stream-IsValid, add-remove}
use my_test_module.Session.Streams.Order.{
  Requested, Started, session_request_lem, session_start_lem,
}
use my_test_module.Session.Streams.Progress.{IsWilling, add_stream_willing}
use my_test_module.Session.Streams.Mux.{
  Endpoint, stream_open_channel, stream_close_channel, stream_write_channel, stream_pend_channel,
  stream_resume_channel,
}
use my_test_module.Session.Streams.Mux.Laws.{Keeps, stream_channel-Keeps}
use my_test_module.Session.Services.{
  Service, Offers, Memory, already_exist, refuse, services_get, add_service, remove_service,
}
use my_test_module.Session.Services.Laws.{table_of, service-once}
use my_test_module.Tests.Peers
use my_test_module.Tests.Ids.{fresh_ids, fresh_ids-IsValid, fresh_run}

abbrev carrier : Env
carrier = record {
  shift = masked_shift;
  create_stream = value 0;
  create_handler = λ k. value 0;
  init = λ s. value 0;
  prepare = λ s. value 0;
  write = λ s bytes. value 1;
  set_offer = λ b. true;
  encode_local_sdp = λ ss. inl (118 ∷ []);
  apply = λ sdp. value 0;
  invite = λ sdp. value 0;
  reply = λ status sdp. value 0;
}

carrier-IsWilling : IsWilling carrier
carrier-IsWilling = record { makes = refl; connects = λ k. refl; initialises = λ s. refl }

abbrev session : List Stream → Session
session ss = record {
  peer = 66 ∷ [];
  streams = ss;
  stream_ids = fresh_ids;
  offerer = false;
  crypto_enabled = false;
  has_callback = false;
  error = value 0;
  trace = [];
}

abbrev ready : Stream
ready = record (new_stream 1 2 4) { state = 2; handlers = crypto ∷ [] }

empty-IsValid : IsValid (session [])
empty-IsValid = record { ids_valid = fresh_ids-IsValid; owned = tt; distinct = tt }

add_run : (add_stream carrier (session []) 2 5).1 ≡ value 1
unfolding add_stream with_id connect init_stream
add_run = rw fresh_run refl

session_request_lem_example :
    Requested carrier (session (ready ∷ [])) (session_request carrier (session (ready ∷ [])))
session_request_lem_example = session_request_lem carrier (session (ready ∷ [])) (omega arith) refl

session_start_lem_example :
    Started carrier
      (session (ready ∷ []))
      (118 ∷ 0 ∷ [])
      (session_start carrier (session (ready ∷ [])) (118 ∷ 0 ∷ []))
session_start_lem_example =
    session_start_lem carrier (session (ready ∷ [])) (118 ∷ 0 ∷ []) (omega arith) (omega arith)

add_stream-IsValid_example :
    IsValid (add_stream carrier (session []) 2 5).0
    × Fresh carrier (session []) (add_stream carrier (session []) 2 5)
add_stream-IsValid_example = add_stream-IsValid carrier (session []) 2 5 empty-IsValid

add-remove_example :
    ((remove_stream carrier (add_stream carrier (session []) 2 5).0 1).1 ≡ value 0)
    × ((remove_stream carrier (add_stream carrier (session []) 2 5).0 1).0.streams ≡ [])
add-remove_example = add-remove carrier (session []) 2 5 1 empty-IsValid add_run

add_stream_willing_example : (id : ℕ) × ((add_stream carrier (session []) 2 5).1 ≡ value id)
unfolding Bitset.bitset_init
add_stream_willing_example =
    add_stream_willing carrier carrier-IsWilling (session []) 2 5 3 empty-IsValid (omega arith)
      (omega arith) (omega arith) (omega arith) refl

-- a stream with channels that is connected
abbrev joined : Endpoint
joined = record {
  session = session (record (new_stream 1 2 8) { state = 4 } ∷ []);
  muxes = λ i. Peers.busy;
}

stream_channel-Keeps_example :
    Keeps joined 1 (stream_open_channel (λ i. Peers.env) Peers.now joined 1 none).0
    × (Keeps joined 1 (stream_close_channel (λ i. Peers.env) Peers.now joined 1 1).0
        × (Keeps joined 1 (stream_write_channel (λ i. Peers.env) Peers.now joined 1 1 (7 ∷ [])).0
            × (Keeps joined 1 (stream_pend_channel (λ i. Peers.env) Peers.now joined 1 1).0
                × Keeps joined 1 (stream_resume_channel (λ i. Peers.env) Peers.now joined 1 1).0)))
stream_channel-Keeps_example =
    stream_channel-Keeps (λ i. Peers.env) Peers.now joined (λ i. Peers.busy-IsValid) 1 1 none
      (7 ∷ [])

abbrev web : Service
web = record { name = 119 ∷ []; host = 104 ∷ []; port = 56 ∷ 48 ∷ []; protocol = 1 }

abbrev memory : Memory
memory = record { creates = true; allocates = true }

abbrev no_offers : Offers
no_offers = record { services = none; error = value 0 }

service-once_example :
    ((add_service memory no_offers web).1 ≡ value 0)
    × ((services_get (table_of (add_service memory no_offers web).0.services) (119 ∷ []) ≡ some web)
        × ((add_service memory (add_service memory no_offers web).0 web
              ≡ refuse (add_service memory no_offers web).0 already_exist)
            × (table_of (remove_service (add_service memory no_offers web).0 (119 ∷ [])).services
                ≡ [])))
unfolding services_get
service-once_example =
    service-once memory web
      (record { has_name = refl; has_host = refl; has_port = refl; over_tcp = refl }) no_offers refl
      refl refl

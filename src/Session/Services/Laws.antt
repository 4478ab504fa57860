-- ===== src/Session/Services/Laws.antt =====
-- A service is offered once, and its removal leaves the services as they were.
use my_test_module.Prelude.{
  ◌≡◌, refl, sym, ap, ◌∙◌, true, false, List, [], Option, none, some, ◌==◌,
}
use my_test_module.Prelude.Returns.{value}
use my_test_module.Carrier.Friends.Tables.{get-put, remove-put, same_bytes_refl}
use my_test_module.Session.Services.{
  Service, Offers, Memory, tcp, named, is_empty, already_exist, refuse, services_get,
  services_exist, services_put, services_remove, offer, with_table, add_service, remove_service,
}

-- the services, of which there are none before the table is made
abbrev pub table_of : Option (List Service) → List Service
table_of none = []
table_of (some table) = table

-- a service that can be offered
pub record IsOffer (svc : Service) : Type 0 where
  pub has_name : is_empty svc.name ≡ false
  pub has_host : is_empty svc.host ≡ false
  pub has_port : is_empty svc.port ≡ false
  pub over_tcp : (svc.protocol == tcp) ≡ true

module _ (memory : Memory) (svc : Service) (o : IsOffer svc) where
  abbrev offered : Offers → List Service → Offers
  offered w table = record w { services = some (services_put table svc) }

  with_table_new :
      (w : Offers) (t : Option (List Service))
      → memory.creates ≡ true
      → memory.allocates ≡ true
      → services_get (table_of t) svc.name ≡ none
      → with_table memory w svc t ≡ (offered w (table_of t), value 0)
  unfolding offer services_get services_exist
  with_table_new w none creates allocates new = rw (creates, allocates) refl
  with_table_new w (some table) creates allocates new = rw (new, allocates) refl

  checked : (w : Offers) → add_service memory w svc ≡ with_table memory w svc w.services
  unfolding add_service
  checked w = rw (o.has_name, o.has_host, o.has_port, o.over_tcp) refl

  get-offered : (table : List Service) → services_get (services_put table svc) svc.name ≡ some svc
  unfolding services_get services_put
  get-offered table = get-put (named svc.name) table svc (same_bytes_refl svc.name)

  offer_again :
      (w : Offers) (table : List Service)
      → offer memory w (services_put table svc) svc
        ≡ refuse (record w { services = some (services_put table svc) }) already_exist
  unfolding offer services_exist services_get services_put
  offer_again w table = rw (get-offered table) refl

  -- A service over TCP with a name, a host and a port, whose name is not taken, is offered with
  -- success and found by its name, if memory can be had. Offering it again fails with the error
  -- that it exists and changes nothing else, and its removal leaves the services as they were.
  pub service-once :
      (w : Offers)
      → memory.creates ≡ true
      → memory.allocates ≡ true
      → services_get (table_of w.services) svc.name ≡ none
      → ((add_service memory w svc).1 ≡ value 0)
        × ((services_get (table_of (add_service memory w svc).0.services) svc.name ≡ some svc)
            × ((add_service memory (add_service memory w svc).0 svc
                  ≡ refuse (add_service memory w svc).0 already_exist)
                × (table_of (remove_service (add_service memory w svc).0 svc.name).services
                    ≡ table_of w.services)))
  unfolding remove_service services_remove services_put services_get
  service-once w creates allocates new =
      let table = table_of w.services in
      let run : add_service memory w svc ≡ (offered w table, value 0) =
        checked w ∙ with_table_new w w.services creates allocates new in
      let back : table_of (remove_service (offered w table) svc.name).services ≡ table =
        rw o.has_name (remove-put (named svc.name) table svc (same_bytes_refl svc.name) new) in
      (
        ap (λ r. r.1) run,
        (
          ap (λ r. services_get (table_of r.0.services) svc.name) run ∙ get-offered table,
          (
            ap (λ r. add_service memory r.0 svc) run
                ∙ checked (offered w table)
                ∙ offer_again (offered w table) table
                ∙ ap (λ r. refuse r.0 already_exist) (sym run),
            ap (λ r. table_of (remove_service r.0 svc.name).services) run ∙ back,
          ),
        ),
      )

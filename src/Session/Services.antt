-- ===== src/Session/Services.antt =====
-- session/services.h and session/session.c: the services that a session offers for port forwarding.
pub mod Laws
use my_test_module.Prelude.{
  ℕ, Bool, true, false, not, ◌||◌, ◌==◌, List, [], ◌∷◌, Option, none, some, if◌then◌else◌,
}
use my_test_module.Prelude.Returns.{Code, value, fail}
use my_test_module.Carrier.Files.{invalid_args, out_of_memory}
use my_test_module.Carrier.Friends.Tables.{get, put, remove, same_bytes}

abbrev pub already_exist : ℕ
already_exist = 0x0c

-- PortForwardingProtocol_TCP
abbrev pub tcp : ℕ
tcp = 1

pub record Service : Type 0 where
  pub name : List ℕ
  pub host : List ℕ
  pub port : List ℕ
  pub protocol : ℕ

-- `services` is NULL before the first service.
pub record Offers : Type 0 where
  pub services : Option (List Service)
  pub error : Code

-- whether the table and a service can be allocated
pub record Memory : Type 0 where
  pub creates : Bool
  pub allocates : Bool

abbrev pub named : List ℕ → Service → Bool
named name svc = same_bytes svc.name name

abbrev pub is_some : Option Service → Bool
is_some none = false
is_some (some svc) = true

unfoldable pub services_get : List Service → List ℕ → Option Service
services_get table name = get (named name) table

unfoldable pub services_exist : List Service → List ℕ → Bool
services_exist table name = is_some (get (named name) table)

unfoldable pub services_put : List Service → Service → List Service
services_put table svc = put (named svc.name) table svc

unfoldable pub services_remove : List Service → List ℕ → List Service
services_remove table name = remove (named name) table

abbrev pub refuse : Offers → ℕ → Offers × Code
refuse w e = (record w { error = fail e }, fail 1)

abbrev pub is_empty : List ℕ → Bool
is_empty [] = true
is_empty (c ∷ cs) = false

-- with the table
unfoldable pub offer : Memory → Offers → List Service → Service → Offers × Code
offer memory w table svc =
    let w1 = record w { services = some table } in
    if services_exist table svc.name
    then refuse w1 already_exist
    else if not memory.allocates
    then refuse w1 out_of_memory
    else (record w { services = some (services_put table svc) }, value 0)

abbrev pub with_table : Memory → Offers → Service → Option (List Service) → Offers × Code
with_table memory w svc none =
    if not memory.creates then refuse w out_of_memory else offer memory w [] svc
with_table memory w svc (some table) = offer memory w table svc

unfoldable pub add_service : Memory → Offers → Service → Offers × Code
add_service memory w svc =
    if is_empty svc.name || (is_empty svc.host || (is_empty svc.port || not (svc.protocol == tcp)))
    then refuse w invalid_args
    else with_table memory w svc w.services

abbrev pub without : List ℕ → Option (List Service) → Option (List Service)
without name none = none
without name (some table) = some (services_remove table name)

unfoldable pub remove_service : Offers → List ℕ → Offers
remove_service w name =
    if is_empty name
    then record w { error = fail invalid_args }
    else record w { services = without name w.services }

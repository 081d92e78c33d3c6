-- ===== src/Daemon/Loaded.antt =====
-- src/daemon/mod.rs: what a started server serves.
use iroh_proxy.Common.{
  ◌≡◌, refl, ap, sym, subst, ◌∙◌, Bool, true, false, Option, none, some, List, [], ◌∷◌, Result, ok,
  err, arith, is_ok, is_some, is_empty, if◌then◌else◌, ◌==◌, map_err, bail_if, All,
}
use iroh_proxy.Common.Dict.{keys, lookup, contains_key, insert, lookup-insert}
use iroh_proxy.Common.State.{Action, continue, ◌>>◌}
use iroh_proxy.Common.Text.{Text, text_Keyed, text_eq_iff, trim}
use iroh_proxy.Common.Utf8.{IsText}
use iroh_proxy.RemotePath.{Iroh, NameError, parse, validate_service_name, service_to_alpn}
use iroh_proxy.Config.Rules.{ServeService, ForwardService}
use iroh_proxy.Daemon.State.{
  Route, Daemon, DaemonError, ForwardBinding, duplicate_service, invalid_service_name,
  invalid_remote, empty_target, modify, add_serve_route, add_forward_binding, sync_endpoint_alpns,
}
use iroh_proxy.Daemon.Start.{fresh, load_services, load_forwards, start_server}
use iroh_proxy.Daemon.Served.{route_of, route_to, service_to_alpn-eq}

-- The route of the first service that is configured under a name.
abbrev pub configured : Text → List ServeService → Option Route
configured name [] = none
configured name (service ∷ services) =
    if service.name == name
    then some (route_to service.name service.target)
    else configured name services

abbrev pub or_else : Option Route → Option Route → Option Route
or_else none r = r
or_else (some route) r = some route

or_else-none : (r : Option Route) → or_else r none ≡ r
or_else-none none = refl
or_else-none (some route) = refl

module _ {EndpointId : Type 0} where
  pub add_serve_route_cases :
      (P : Result DaemonError (Unit {0}) × Daemon EndpointId → Type 0) (name target : Text)
      (d : Daemon EndpointId)
      → ((e : DaemonError) → P (err e, d))
      → (route_of name d ≡ none
          → P (
            ok tt,
            record d { routes = insert (service_to_alpn name) (route_to name target) d.routes },
          ))
      → P (add_serve_route name target d)
  unfolding add_serve_route contains_key
  add_serve_route_cases P name target d refused added =
      checked (validate_service_name name) (is_empty (trim target))
    where
      looked :
          (found : Option Route)
          → route_of name d ≡ found
          → P (
              if is_some found then (err (duplicate_service name), d) else (
                ok tt,
                record d { routes = insert (service_to_alpn name) (route_to name target) d.routes },
              ))
      looked none r = added r
      looked (some route) r = refused (duplicate_service name)

      checked :
          (valid : Result NameError (Unit {0})) (empty : Bool)
          → P (
              continue {B = Unit {0}}
                (map_err invalid_service_name valid, d)
                λ _ s.
                  continue {B = Unit {0}}
                    (bail_if empty empty_target, s)
                    λ _ s'.
                      if is_some (route_of name s') then (err (duplicate_service name), s') else (
                        ok tt,
                        record s' {
                          routes = insert (service_to_alpn name) (route_to name target) s'.routes;
                        },
                      ))
      checked (err e) empty = refused (invalid_service_name e)
      checked (ok done) true = refused empty_target
      checked (ok done) false = looked (route_of name d) refl

  -- A name's route after one more service was added under a name that was not served.
  or_else-added :
      (service : ServeService) (d : Daemon EndpointId) (name : Text) (later : Option Route)
      → IsText service.name
      → IsText name
      → route_of service.name d ≡ none
      → or_else
          (lookup
            (service_to_alpn name)
            (insert (service_to_alpn service.name) (route_to service.name service.target) d.routes))
          later
        ≡ or_else
            (route_of name d)
            (if service.name == name then some (route_to service.name service.target) else later)
  or_else-added service d name later k h new =
      ap (λ r. or_else r later)
        (lookup-insert (service_to_alpn service.name) (service_to_alpn name) _ d.routes
          ∙ rw (service_to_alpn-eq service.name name k h) refl)
      ∙ split (service.name == name) refl
    where
      split :
          (same : Bool)
          → (service.name == name) ≡ same
          → or_else
              (if same then some (route_to service.name service.target) else route_of name d)
              later
            ≡ or_else
                (route_of name d)
                (if same then some (route_to service.name service.target) else later)
      split true eq =
          ap (λ r. or_else r (some (route_to service.name service.target)))
            (sym (subst (λ n. route_of n d ≡ none) ((text_eq_iff service.name name).0 eq) new))
      split false eq = refl

  load_services_lem :
      (services : List ServeService) (d : Daemon EndpointId) (name : Text)
      → All (λ service. IsText service.name) services
      → IsText name
      → is_ok (load_services services d).0 ≡ true
      → route_of name (load_services services d).1
        ≡ or_else (route_of name d) (configured name services)
  unfolding load_services
  load_services_lem [] d name known h = λ done. sym (or_else-none (route_of name d))
  load_services_lem (service ∷ services) d name (text, known) h =
      add_serve_route_cases
        (λ r.
          is_ok (continue {B = Unit {0}} r λ _. load_services services).0 ≡ true
          → route_of name (continue {B = Unit {0}} r λ _. load_services services).1
            ≡ or_else (route_of name d) (configured name (service ∷ services)))
        service.name service.target d (λ e done. cc)
        λ new done.
          load_services_lem services _ name known h done
          ∙ or_else-added service d name (configured name services) text h new

  -- What the endpoint and the routes share with an earlier state.
  abbrev SameRoutes : Daemon EndpointId → Daemon EndpointId → Type 0
  SameRoutes d later = (later.routes ≡ d.routes) × (later.alpns ≡ d.alpns)

  add_forward_binding-SameRoutes :
      (bind : Text → Bool) (binding : ForwardBinding EndpointId) (persisted : Bool)
      (d : Daemon EndpointId)
      → SameRoutes d (add_forward_binding bind binding persisted d).1
  unfolding add_forward_binding
  add_forward_binding-SameRoutes bind binding persisted d = ground arith

  continue-SameRoutes :
      {A B : Type 0} (d : Daemon EndpointId) (r : Result DaemonError A × Daemon EndpointId)
      (rest : A → Action (Daemon EndpointId) DaemonError B)
      → SameRoutes d r.1
      → ((a : A) (s : Daemon EndpointId) → SameRoutes s (rest a s).1)
      → SameRoutes d (continue r rest).1
  continue-SameRoutes d (ok a, s) rest (routes, alpns) h = ((h a s).0 ∙ routes, (h a s).1 ∙ alpns)
  continue-SameRoutes d (err e, s) rest same h = same

  load_forwards-SameRoutes :
      ⦃iroh : Iroh EndpointId⦄ (bind : Text → Bool) (forwards : List ForwardService)
      (d : Daemon EndpointId)
      → SameRoutes d (load_forwards bind forwards d).1
  unfolding load_forwards
  load_forwards-SameRoutes bind [] d = (refl, refl)
  load_forwards-SameRoutes bind (forward ∷ forwards) d =
      continue-SameRoutes d (map_err invalid_remote (parse forward.remote), d) _ (refl, refl)
        λ remote s.
          continue-SameRoutes s (add_forward_binding bind _ true s) _
            (add_forward_binding-SameRoutes bind _ true s)
            λ added. load_forwards-SameRoutes bind forwards

  -- A server that started serves each name by the target of the first service configured under it,
  -- and no other name, and the endpoint was told the identifiers of all routes. The configured
  -- names are texts.
  pub start_server_lem :
      ⦃iroh : Iroh EndpointId⦄ (bind : Text → Bool) (services : List ServeService)
      (forwards : List ForwardService) (id : EndpointId)
      → All (λ service. IsText service.name) services
      → is_ok (start_server bind services forwards (fresh id)).0 ≡ true
      → let d = (start_server bind services forwards (fresh id)).1 in
        ((name : Text) → IsText name → route_of name d ≡ configured name services)
        × (d.alpns ≡ keys d.routes)
  unfolding start_server lookup
  start_server_lem bind services forwards id known =
      loaded (load_services services (fresh id))
        λ h name k. load_services_lem services (fresh id) name known k h
    where
      loaded :
          (r : Result DaemonError (Unit {0}) × Daemon EndpointId)
          → (is_ok r.0 ≡ true
              → (name : Text) → IsText name
              → route_of name r.1 ≡ configured name services)
          → let q =
              continue {B = Unit {0}} r
                λ _. modify sync_endpoint_alpns >> load_forwards bind forwards in
            is_ok q.0 ≡ true
            → ((name : Text) → IsText name → route_of name q.1 ≡ configured name services)
              × (q.1.alpns ≡ keys q.1.routes)
      loaded (ok done, d) serves h =
          let (routes, alpns) = load_forwards-SameRoutes bind forwards (sync_endpoint_alpns d) in
          (
            λ name k. ap (λ t. lookup (service_to_alpn name) t) routes ∙ serves refl name k,
            alpns ∙ ap keys (sym routes),
          )
      loaded (err e, d) serves h = cc

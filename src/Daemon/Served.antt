-- ===== src/Daemon/Served.antt =====
-- src/daemon/service.rs: what AddServe and DelServe do to the served routes.
use iroh_proxy.Common.{
  ◌≡◌, refl, ap, ◌∙◌, ◌≢◌, ◌↔◌, inl, inr, Bool, true, false, Option, none, some, [], Result, ok,
  err, arith, is_ok, is_some, is_empty, if◌then◌else◌, ◌==◌, map_err, bail_if, Option-cases,
}
use iroh_proxy.Common.Dict.{
  keys, lookup, contains_key, insert, remove, HasDistinctKeys, lookup-insert, lookup-remove,
  lookup-insert_self, remove-insert_new,
}
use iroh_proxy.Common.State.{continue, ◌>>◌}
use iroh_proxy.Common.Text.{Text, text, text_Keyed, text_eq_iff, trim}
use iroh_proxy.Common.Utf8.{IsText}
use iroh_proxy.RemotePath.{NameError, validate_service_name, service_to_alpn}
use iroh_proxy.RemotePath.Names.{IsServiceName, validate_service_name_iff}
use iroh_proxy.RemotePath.Alpn.{service_to_alpn_injective}
use iroh_proxy.Daemon.State.{
  Route, Daemon, DaemonError, duplicate_service, not_served, invalid_service_name, empty_target,
  add_serve_route, sync_endpoint_alpns, send_state, modify,
}
use iroh_proxy.Daemon.Service.{add_serve, del_serve}

abbrev pub route_to : Text → Text → Route
route_to name target = record { name = name; target = target }

-- Comparing ALPN identifiers is comparing names.
pub service_to_alpn-eq :
    (name other : Text)
    → IsText name
    → IsText other
    → (service_to_alpn name == service_to_alpn other) ≡ (name == other)
service_to_alpn-eq name other h k = ground (
  arith,
  text_eq_iff name other,
  text_eq_iff (service_to_alpn name) (service_to_alpn other),
  service_to_alpn_injective name other h k,
)

module _ {EndpointId : Type 0} where
  -- The abstract view of the routes: what a name is served by.
  abbrev pub route_of : Text → Daemon EndpointId → Option Route
  route_of name d = lookup (service_to_alpn name) d.routes

  -- The state after a route was added.
  abbrev with_route : Text → Text → Daemon EndpointId → Daemon EndpointId
  with_route name target d = send_state (text "serve-added") (
      sync_endpoint_alpns
        (record d { routes = insert (service_to_alpn name) (route_to name target) d.routes }))

  -- The two ways in which AddServe ends.
  pub add_serve_cases :
      (P : Result DaemonError (Unit {0}) × Daemon EndpointId → Type 0) (name target : Text)
      (d : Daemon EndpointId)
      → ((e : DaemonError)
          → (IsServiceName name → trim target ≢ [] → route_of name d ≡ none → ⊥)
          → P (err e, d))
      → (IsServiceName name
          → trim target ≢ []
          → route_of name d ≡ none
          → P (ok tt, with_route name target d))
      → P (add_serve name target d)
  unfolding add_serve add_serve_route contains_key
  add_serve_cases P name target d refused accepted =
      checked (validate_service_name name) (is_empty (trim target)) refl refl
    where
      looked :
          (found : Option Route)
          → route_of name d ≡ found
          → IsServiceName name
          → trim target ≢ []
          → P (
              continue {B = Unit {0}}
                (if is_some found then (err (duplicate_service name), d) else (
                  ok tt,
                  record d {
                    routes = insert (service_to_alpn name) (route_to name target) d.routes;
                  },
                ))
                λ _. modify sync_endpoint_alpns >> modify (send_state (text "serve-added")))
      looked none r v f = accepted v f r
      looked (some route) r v f = refused (duplicate_service name) λ v f n. cc (r, n)

      checked :
          (valid : Result NameError (Unit {0})) (empty : Bool)
          → validate_service_name name ≡ valid
          → is_empty (trim target) ≡ empty
          → P (
              continue {B = Unit {0}}
                (continue {B = Unit {0}}
                  (map_err invalid_service_name valid, d)
                  λ _ s.
                    continue {B = Unit {0}}
                      (bail_if empty empty_target, s)
                      λ _ s'.
                        if is_some (route_of name s') then (err (duplicate_service name), s') else (
                          ok tt,
                          record s' {
                            routes = insert (service_to_alpn name) (route_to name target) s'.routes;
                          },
                        ))
                λ _. modify sync_endpoint_alpns >> modify (send_state (text "serve-added")))
      checked (err e) empty p q =
          refused (invalid_service_name e) λ v f n. cc (p, (validate_service_name_iff name).1 v)
      checked (ok done) true p q = refused empty_target λ v f n. f (ground arith)
      checked (ok done) false p q =
          looked (route_of name d) refl ((validate_service_name_iff name).0 p) (λ e. ground arith)

  -- What AddServe does.
  pub record AddsServe (name target : Text) (d : Daemon EndpointId)
      (r : Result DaemonError (Unit {0}) × Daemon EndpointId) : Type 0 where
    pub accepts :
        (is_ok r.0 ≡ true) ↔ (IsServiceName name × (trim target ≢ []) × (route_of name d ≡ none))
    pub served :
        is_ok r.0 ≡ true
        → (other : Text) → IsText name
        → IsText other
        → route_of other r.1
          ≡ (if name == other then some (route_to name target) else route_of other d)
    pub told : is_ok r.0 ≡ true → r.1.alpns ≡ keys r.1.routes
    pub untouched : is_ok r.0 ≡ false → r.1 ≡ d

  -- AddServe succeeds exactly if the name is valid, the target is not blank and the name is not
  -- served. Then the name is served by the target, every other name by what served it before, and
  -- the endpoint is told the identifiers of all routes. If it fails, nothing changes.
  pub add_serve-AddsServe :
      (name target : Text) (d : Daemon EndpointId)
      → AddsServe name target d (add_serve name target d)
  unfolding sync_endpoint_alpns send_state
  add_serve-AddsServe name target d =
      add_serve_cases (AddsServe name target d) name target d
        (λ e bad. record {
          accepts = ((λ h. cc), λ (v, f, n). absurd (bad v f n));
          served = λ h. cc;
          told = λ h. cc;
          untouched = λ h. refl;
        })
        λ v f n. record {
          accepts = ((λ h. (v, f, n)), λ h. refl);
          served = λ h other p q.
              lookup-insert (service_to_alpn name) (service_to_alpn other) (route_to name target)
                d.routes
              ∙ rw (service_to_alpn-eq name other p q);
          told = λ h. refl;
          untouched = λ h. cc;
        }

  -- The two ways in which DelServe ends.
  pub del_serve_cases :
      (P : Result DaemonError (Unit {0}) × Daemon EndpointId → Type 0) (name : Text)
      (d : Daemon EndpointId)
      → (route_of name d ≡ none → P (err (not_served name), d))
      → ((route : Route)
          → route_of name d ≡ some route
          → P (
            ok tt,
            send_state (text "serve-removed") (
                sync_endpoint_alpns (record d { routes = remove (service_to_alpn name) d.routes })),
          ))
      → P (del_serve name d)
  unfolding del_serve
  del_serve_cases P name d missing found = elim (Option-cases (route_of name d)) [
    | inl e ↦ rw (e, del_serve) (missing e)
    | inr (route, e) ↦ rw (e, del_serve) (found route e)
  ]

  pub record DelsServe (name : Text) (d : Daemon EndpointId)
      (r : Result DaemonError (Unit {0}) × Daemon EndpointId) : Type 0 where
    pub accepts : (is_ok r.0 ≡ true) ↔ (route_of name d ≢ none)
    pub served :
        is_ok r.0 ≡ true
        → (other : Text) → IsText name
        → IsText other
        → route_of other r.1 ≡ (if name == other then none else route_of other d)
    pub told : is_ok r.0 ≡ true → r.1.alpns ≡ keys r.1.routes
    pub untouched : is_ok r.0 ≡ false → r ≡ (err (not_served name), d)

  -- DelServe succeeds exactly if the name is served. Then the name is served no more, every other
  -- name by what served it before, and the endpoint is told the identifiers of the routes that are
  -- left. If it fails, nothing changes. No identifier stands twice in the table.
  pub del_serve-DelsServe :
      (name : Text) (d : Daemon EndpointId)
      → HasDistinctKeys d.routes
      → DelsServe name d (del_serve name d)
  unfolding sync_endpoint_alpns send_state
  del_serve-DelsServe name d distinct =
      del_serve_cases (DelsServe name d) name d
        (λ n. record {
          accepts = ((λ h. cc), λ k. absurd (k n));
          served = λ h. cc;
          told = λ h. cc;
          untouched = λ h. refl;
        })
        λ route n. record {
          accepts = ((λ h e. cc (n, e)), λ k. refl);
          served = λ h other p q.
              lookup-remove (service_to_alpn name) (service_to_alpn other) d.routes distinct
              ∙ rw (service_to_alpn-eq name other p q);
          told = λ h. refl;
          untouched = λ h. cc;
        }

  -- Adding a service and deleting it again leaves the routes as they were, and tells the endpoint
  -- their identifiers.
  pub del_serve-add_serve :
      (name target : Text) (d : Daemon EndpointId)
      → is_ok (add_serve name target d).0 ≡ true
      → let r = del_serve name (add_serve name target d).1 in
        (r.0 ≡ ok tt) × (r.1.routes ≡ d.routes) × (r.1.alpns ≡ keys d.routes)
  unfolding del_serve sync_endpoint_alpns send_state
  del_serve-add_serve name target d =
      add_serve_cases
        (λ r.
          is_ok r.0 ≡ true
          → let q = del_serve name r.1 in
            (q.0 ≡ ok tt) × (q.1.routes ≡ d.routes) × (q.1.alpns ≡ keys d.routes))
        name target d (λ e bad h. cc)
        λ v f n h.
          let same = remove-insert_new (service_to_alpn name) (route_to name target) d.routes n in
          rw (lookup-insert_self (service_to_alpn name) (route_to name target) d.routes, del_serve)
            (refl, same, ap keys same)

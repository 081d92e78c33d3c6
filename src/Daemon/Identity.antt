-- ===== src/Daemon/Identity.antt =====
-- src/daemon/mod.rs: the endpoint of a started server is the one it was given.
use iroh_proxy.Common.{◌≡◌, refl, ◌∙◌, Bool, true, List, [], ◌∷◌, Result, ok, err, arith, map_err}
use iroh_proxy.Common.State.{Action, continue}
use iroh_proxy.Common.Text.{Text}
use iroh_proxy.RemotePath.{Iroh, parse}
use iroh_proxy.Config.Rules.{ServeService, ForwardService}
use iroh_proxy.Daemon.State.{
  Daemon, DaemonError, ForwardBinding, invalid_remote, add_serve_route, add_forward_binding,
  sync_endpoint_alpns,
}
use iroh_proxy.Daemon.Start.{fresh, load_services, load_forwards, start_server}
use iroh_proxy.Daemon.Loaded.{add_serve_route_cases}

module _ {EndpointId : Type 0} where
  -- A step keeps the endpoint's id.
  abbrev Keeps : {A : Type 0} → Action (Daemon EndpointId) DaemonError A → Type 0
  Keeps f = (d : Daemon EndpointId) → (f d).1.endpoint_id ≡ d.endpoint_id

  continue-Keeps :
      {A B : Type 0} (r : Result DaemonError A × Daemon EndpointId)
      (rest : A → Action (Daemon EndpointId) DaemonError B)
      → ((a : A) → Keeps (rest a))
      → (continue r rest).1.endpoint_id ≡ r.1.endpoint_id
  continue-Keeps (ok a, d) rest keeps = keeps a d
  continue-Keeps (err e, d) rest keeps = refl

  load_services-Keeps : (services : List ServeService) → Keeps (load_services services)
  unfolding load_services
  load_services-Keeps [] d = refl
  load_services-Keeps (service ∷ services) d =
      continue-Keeps (add_serve_route service.name service.target d) _
        (λ added. load_services-Keeps services)
      ∙ add_serve_route_cases (λ r. r.1.endpoint_id ≡ d.endpoint_id) service.name service.target d
          (λ e. refl) (λ new. refl)

  add_forward_binding-Keeps :
      (bind : Text → Bool) (binding : ForwardBinding EndpointId) (persisted : Bool)
      → Keeps (add_forward_binding bind binding persisted)
  unfolding add_forward_binding
  add_forward_binding-Keeps bind binding persisted d = ground arith

  module _ ⦃iroh : Iroh EndpointId⦄ (bind : Text → Bool) where
    load_forwards-Keeps : (forwards : List ForwardService) → Keeps (load_forwards bind forwards)
    unfolding load_forwards
    load_forwards-Keeps [] d = refl
    load_forwards-Keeps (forward ∷ forwards) d =
        continue-Keeps (map_err invalid_remote (parse forward.remote), d) _
          λ remote s.
            continue-Keeps (add_forward_binding bind _ true s) _
              (λ added. load_forwards-Keeps forwards)
            ∙ add_forward_binding-Keeps bind _ true s

    pub endpoint_id-start_server :
        (services : List ServeService) (forwards : List ForwardService) (id : EndpointId)
        → (start_server bind services forwards (fresh id)).1.endpoint_id ≡ id
    unfolding start_server sync_endpoint_alpns
    endpoint_id-start_server services forwards id =
        continue-Keeps (load_services services (fresh id)) _
          (λ loaded d. load_forwards-Keeps forwards (sync_endpoint_alpns d))
        ∙ load_services-Keeps services (fresh id)

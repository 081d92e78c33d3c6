-- ===== src/Daemon/Reaching.antt =====
-- src/daemon/mod.rs: the start of a server is made of the steps of the states that it reaches.
use iroh_proxy.Common.{Bool, List, [], ◌∷◌, Result, ok, err, true, map_err}
use iroh_proxy.Common.State.{Action, continue}
use iroh_proxy.Common.Text.{Text}
use iroh_proxy.RemotePath.{Iroh, parse}
use iroh_proxy.Config.Rules.{ServeService, ForwardService}
use iroh_proxy.Daemon.State.{
  Daemon, DaemonError, invalid_remote, add_serve_route, add_forward_binding, sync_endpoint_alpns,
}
use iroh_proxy.Daemon.Start.{fresh, load_services, load_forwards, start_server}
use iroh_proxy.Daemon.Owned.{Reach, starts, loads, syncs, adds}

module _ {EndpointId : Type 0} where
  continue-Reach :
      {A B : Type 0} (r : Result DaemonError A × Daemon EndpointId)
      (rest : A → Action (Daemon EndpointId) DaemonError B)
      → Reach r.1
      → ((a : A) (d : Daemon EndpointId) → Reach d → Reach (rest a d).1)
      → Reach (continue r rest).1
  continue-Reach (ok a, d) rest reach then = then a d reach
  continue-Reach (err e, d) rest reach then = reach

  load_services-Reach :
      (services : List ServeService) (d : Daemon EndpointId)
      → Reach d
      → Reach (load_services services d).1
  unfolding load_services
  load_services-Reach [] d reach = reach
  load_services-Reach (service ∷ services) d reach =
      continue-Reach (add_serve_route service.name service.target d) _
        (loads service.name service.target reach) λ added. load_services-Reach services

  module _ ⦃iroh : Iroh EndpointId⦄ (bind : Text → Bool) where
    load_forwards-Reach :
        (forwards : List ForwardService) (d : Daemon EndpointId)
        → Reach d
        → Reach (load_forwards bind forwards d).1
    unfolding load_forwards
    load_forwards-Reach [] d reach = reach
    load_forwards-Reach (forward ∷ forwards) d reach =
        continue-Reach (map_err invalid_remote (parse forward.remote), d) _ reach
          λ remote s known.
            continue-Reach (add_forward_binding bind _ true s) _ (adds bind _ true known)
              λ added. load_forwards-Reach forwards

    -- Whatever services and forwards it starts with.
    pub start_server-Reach :
        (services : List ServeService) (forwards : List ForwardService) (id : EndpointId)
        → Reach (start_server bind services forwards (fresh id)).1
    unfolding start_server
    start_server-Reach services forwards id =
        continue-Reach (load_services services (fresh id)) _
          (load_services-Reach services (fresh id) (starts id))
          λ loaded d known. load_forwards-Reach forwards (sync_endpoint_alpns d) (syncs known)

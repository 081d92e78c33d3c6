-- ===== src/Daemon/Start.antt =====
-- src/daemon/mod.rs: the start of `run_server`, up to the control plane.
use iroh_proxy.Common.{Bool, true, List, [], ◌∷◌, map_err}
use iroh_proxy.Common.State.{pure, lift, ◌>>=◌, ◌>>◌}
use iroh_proxy.Common.Text.{Text}
use iroh_proxy.RemotePath.{Iroh, parse}
use iroh_proxy.Config.Rules.{ServeService, ForwardService}
use iroh_proxy.Daemon.Connections.{empty_registry}
use iroh_proxy.Daemon.State.{
  Daemon, DaemonAction, invalid_remote, modify, add_serve_route, sync_endpoint_alpns,
  add_forward_binding,
}

module _ {EndpointId : Type 0} where
  abbrev pub fresh : EndpointId → Daemon EndpointId
  fresh id = record {
    endpoint_id = id;
    alpns = [];
    routes = [];
    forwards = [];
    tasks = [];
    next_task = 0;
    connections = empty_registry;
  }

  unfoldable pub load_services : List ServeService → DaemonAction EndpointId
  load_services [] = pure tt
  load_services (service ∷ services) =
      add_serve_route service.name service.target >> load_services services

  unfoldable pub load_forwards :
      ⦃iroh : Iroh EndpointId⦄ → (Text → Bool) → List ForwardService → DaemonAction EndpointId
  load_forwards bind [] = pure tt
  load_forwards bind (forward ∷ forwards) = do
    remote ← lift (map_err invalid_remote (parse forward.remote))
    add_forward_binding bind
        (record {
          listen = forward.listen;
          remote = remote;
          close_on_request_timeout = forward.close_on_request_timeout_secs;
        })
        true
    load_forwards bind forwards

  unfoldable pub start_server :
      ⦃iroh : Iroh EndpointId⦄
      → (Text → Bool)
      → List ServeService
      → List ForwardService
      → DaemonAction EndpointId
  unfolding load_services load_forwards sync_endpoint_alpns
  start_server bind initial_services initial_forwards = do
    load_services initial_services
    modify sync_endpoint_alpns
    load_forwards bind initial_forwards

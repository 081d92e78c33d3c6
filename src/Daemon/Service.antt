-- ===== src/Daemon/Service.antt =====
-- src/daemon/service.rs: the methods of the control interface `dev.iroh.Proxy`.
use iroh_proxy.Common.{ℕ, Bool, none, some, List, map_err, length, map, ℕ_Keyed}
use iroh_proxy.Common.Dict.{lookup, remove, values}
use iroh_proxy.Common.State.{pure, fail, lift, ◌>>=◌, ◌>>◌}
use iroh_proxy.Common.Text.{Text, text, text_Keyed}
use iroh_proxy.RemotePath.{Iroh, parse, show_remote, service_to_alpn}
use iroh_proxy.Daemon.Connections.{len, snapshot}
use iroh_proxy.Daemon.State.{
  Daemon, DaemonAction, invalid_remote, not_served, not_forwarded, modify, send_state,
  add_serve_route, sync_endpoint_alpns, add_forward_binding, abort,
}

pub record Status : Type 0 where
  pub endpoint_id : Text
  pub connections : ℕ
  pub served : ℕ
  pub forwards : ℕ

module _ {EndpointId : Type 0} where
  unfoldable pub list_connections : Daemon EndpointId → List (ℕ × Text × Text × Text)
  list_connections d =
      map (λ (id, conn). (id, conn.src, conn.kind, conn.dst)) (snapshot d.connections)

  unfoldable pub list_serves : Daemon EndpointId → List (Text × Text)
  list_serves d = map (λ route. (route.name, route.target)) (values d.routes)

  unfoldable pub add_serve : Text → Text → DaemonAction EndpointId
  unfolding send_state
  add_serve name target = do
    add_serve_route name target
    modify sync_endpoint_alpns
    modify (send_state (text "serve-added"))

  unfoldable pub del_serve : Text → DaemonAction EndpointId
  unfolding send_state
  del_serve name d =
      let alpn = service_to_alpn name in
      elim (lookup alpn d.routes) [
        | none ↦ fail (not_served name) d
        | some route ↦ pure tt (
            send_state (text "serve-removed")
              (sync_endpoint_alpns (record d { routes = remove alpn d.routes })))
      ]

  -- Removing the entry drops its runtime, which schedules the task's cancellation.
  unfoldable pub del_forward : Text → DaemonAction EndpointId
  unfolding send_state abort
  del_forward listen d = elim (lookup listen d.forwards) [
    | none ↦ fail (not_forwarded listen) d
    | some runtime ↦ pure tt (
        send_state (text "forward-removed")
          (abort runtime.task (record d { forwards = remove listen d.forwards })))
  ]

module _ {EndpointId : Type 0} ⦃iroh : Iroh EndpointId⦄ where
  unfoldable pub status : Daemon EndpointId → Status
  status d = record {
    endpoint_id = iroh.to_string d.endpoint_id;
    connections = len d.connections;
    served = length d.routes;
    forwards = length d.forwards;
  }

  unfoldable pub list_forwards : Daemon EndpointId → List (Text × Text × Bool)
  list_forwards d =
      map (λ (listen, runtime). (listen, show_remote runtime.remote, runtime.persisted)) d.forwards

  unfoldable pub add_forward : (Text → Bool) → Text → Text → Bool → ℕ → DaemonAction EndpointId
  add_forward bind listen remote persisted timeout_secs = do
    parsed ← lift (map_err invalid_remote (parse remote))
    add_forward_binding bind
        (record { listen = listen; remote = parsed; close_on_request_timeout = timeout_secs })
        persisted

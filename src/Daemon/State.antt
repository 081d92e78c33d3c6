-- ===== src/Daemon/State.antt =====
-- src/daemon/mod.rs, routes.rs and forwards.rs: the server's state, its served routes and its forward
-- listeners. A tokio task is a number; `tasks` holds the listeners' tasks that were spawned, with the
-- guards of the connections that each one serves.
use iroh_proxy.Common.{
  ℕ, ◌+◌, Bool, none, some, List, [], ◌∷◌, ◌++◌, map_err, bail_if, if◌then◌else◌, ℕ_Keyed, is_empty,
  retain, nat_eq, not,
}
use iroh_proxy.Common.Dict.{Dict, lookup, contains_key, insert, keys}
use iroh_proxy.Common.State.{Action, pure, fail, lift, ◌>>◌}
use iroh_proxy.Common.Text.{Text, text, text_Keyed, trim}
use iroh_proxy.Common.Utf8.{Bytes}
use iroh_proxy.RemotePath.{RemotePath, NameError, PathError, validate_service_name, service_to_alpn}
use iroh_proxy.Daemon.Connections.{ActiveConnection, ConnectionRegistry, register, drop_guard, send}

pub record Route : Type 0 where
  pub name : Text
  pub target : Text

pub record ForwardBinding (EndpointId : Type 0) : Type 0 where
  pub listen : Text
  pub remote : RemotePath EndpointId
  pub close_on_request_timeout : ℕ

-- Aborting a task only schedules its cancellation: it goes on until the runtime cancels it.
pub data Phase : Type 0 where
  accepting cancelling stopped : Phase

pub record ForwardTask (EndpointId : Type 0) : Type 0 where
  pub binding : ForwardBinding EndpointId
  pub phase : Phase
  pub conns : List ℕ

pub record ForwardRuntime (EndpointId : Type 0) : Type 0 where
  pub remote : RemotePath EndpointId
  pub persisted : Bool
  pub task : ℕ

-- `alpns` is what the endpoint was last told to accept.
pub record Daemon (EndpointId : Type 0) : Type 0 where
  pub endpoint_id : EndpointId
  pub alpns : List Bytes
  pub routes : Dict Bytes Route
  pub forwards : Dict Text (ForwardRuntime EndpointId)
  pub tasks : Dict ℕ (ForwardTask EndpointId)
  pub next_task : ℕ
  pub connections : ConnectionRegistry

pub data DaemonError : Type 0 where
  invalid_service_name : NameError → DaemonError
  empty_target : DaemonError
  duplicate_service not_served : Text → DaemonError
  invalid_remote : PathError → DaemonError
  listener_exists bind_failed not_forwarded : Text → DaemonError

abbrev pub DaemonAction : Type 0 → Type 0
DaemonAction EndpointId = Action (Daemon EndpointId) DaemonError (Unit {0})

-- `JoinHandle::abort`, which does nothing to a task that is over.
abbrev pub abort_phase : Phase → Phase
abort_phase accepting = cancelling
abort_phase cancelling = cancelling
abort_phase stopped = stopped

-- What the runtime does to a task whose cancellation is scheduled.
abbrev pub cancel_phase : Phase → Phase
cancel_phase accepting = accepting
cancel_phase cancelling = stopped
cancel_phase stopped = stopped

module _ {EndpointId : Type 0} where
  abbrev pub modify : (Daemon EndpointId → Daemon EndpointId) → DaemonAction EndpointId
  modify f d = pure tt (f d)

  unfoldable pub send_state : Text → Daemon EndpointId → Daemon EndpointId
  send_state reason d = record d { connections = send reason d.connections }

  unfoldable pub add_serve_route : Text → Text → DaemonAction EndpointId
  add_serve_route name target = do
    lift (map_err invalid_service_name (validate_service_name name))
    lift (bail_if (is_empty (trim target)) empty_target)
    λ d.
        let alpn = service_to_alpn name in
        if contains_key alpn d.routes
        then fail (duplicate_service name) d
        else pure tt
            (record d { routes = insert alpn (record { name = name; target = target }) d.routes })

  unfoldable pub sync_endpoint_alpns : Daemon EndpointId → Daemon EndpointId
  sync_endpoint_alpns d = record d { alpns = keys d.routes }

  -- Spawning the listener's task.
  unfoldable pub spawn : ForwardBinding EndpointId → Daemon EndpointId → Daemon EndpointId
  spawn binding d = record d {
    tasks =
        insert d.next_task (record { binding = binding; phase = accepting; conns = [] }) d.tasks;
    next_task = d.next_task + 1;
  }

  -- `bind` tells whether `TcpListener::bind` succeeds at an address.
  unfoldable pub add_forward_binding :
      (Text → Bool) → ForwardBinding EndpointId → Bool → DaemonAction EndpointId
  unfolding spawn send_state
  add_forward_binding bind binding persisted d =
      if contains_key binding.listen d.forwards
      then fail (listener_exists binding.listen) d
      else if bind binding.listen
      then pure tt (send_state (text "forward-added") (listening (spawn binding d)))
      else fail (bind_failed binding.listen) d
    where
      listening : Daemon EndpointId → Daemon EndpointId
      listening s = record s {
        forwards =
            insert binding.listen
              (record { remote = binding.remote; persisted = persisted; task = d.next_task })
              s.forwards;
      }

  unfoldable pub change_task :
      ℕ → (ForwardTask EndpointId → ForwardTask EndpointId) → Daemon EndpointId → Daemon EndpointId
  change_task task f d = elim (lookup task d.tasks) [
    | none ↦ d
    | some t ↦ record d { tasks = insert task (f t) d.tasks }
  ]

  -- `ForwardRuntime::drop`.
  unfoldable pub abort : ℕ → Daemon EndpointId → Daemon EndpointId
  unfolding change_task
  abort task = change_task task λ t. record t { phase = abort_phase t.phase }

  -- The runtime drops the task's future, and its listener and its `JoinSet` with it, which schedules
  -- the cancellation of its connections; each of these ends by `forward_disconnected`.
  unfoldable pub cancelled : ℕ → Daemon EndpointId → Daemon EndpointId
  unfolding change_task
  cancelled task = change_task task λ t. record t { phase = cancel_phase t.phase }

  -- A connection of a listener's task, once the remote is connected. A connection that
  -- is to be cancelled may still get there.
  unfoldable pub forward_connected : ℕ → ActiveConnection → Daemon EndpointId → Daemon EndpointId
  forward_connected task info d = elim (lookup task d.tasks) [
    | none ↦ d
    | some t ↦
        let (id, r) = register info d.connections in
        record d {
          tasks = insert task (record t { conns = t.conns ++ (id ∷ []) }) d.tasks;
          connections = r;
        }
  ]

  -- The end of one of its connections, by itself or cancelled, which drops the guard.
  unfoldable pub forward_disconnected : ℕ → ℕ → Daemon EndpointId → Daemon EndpointId
  forward_disconnected task id d = elim (lookup task d.tasks) [
    | none ↦ d
    | some t ↦ record d {
      tasks = insert task (record t { conns = retain (λ i. not (nat_eq i id)) t.conns }) d.tasks;
      connections = drop_guard id d.connections;
    }
  ]

  -- A listener's task returns when `accept` fails, which drops its `JoinSet`.
  unfoldable pub accept_failed : ℕ → Daemon EndpointId → Daemon EndpointId
  unfolding change_task
  accept_failed task = change_task task λ t. record t { phase = stopped }

-- ===== src/Daemon/ForwardTests.antt =====
-- Runs of the forward listeners of src/daemon/, and the theorems at concrete inputs.
use iroh_proxy.Common.{
  List, map, ℕ, ◌≡◌, ◌≢◌, refl, Bool, true, false, some, [], ◌∷◌, is_ok, ℕ_Keyed,
}
use iroh_proxy.Common.Dict.{lookup, insert, remove, contains_key, keys, values}
use iroh_proxy.RemotePath.{validate_service_name, is_bad_char, service_to_alpn}
use iroh_proxy.Common.Text.{Text, text, text_Keyed, trim}
use iroh_proxy.Common.Utf8.{text_computes}
use iroh_proxy.Daemon.Connections.{ActiveConnection, register, drop_guard, len}
use iroh_proxy.Daemon.State.{
  ForwardBinding, ForwardTask, Phase, Daemon, add_serve_route, sync_endpoint_alpns,
  add_forward_binding, change_task, cancelled, cancelling, stopped, accepting, spawn, send_state,
  abort, forward_connected, forward_disconnected, accept_failed,
}
use iroh_proxy.Daemon.Start.{fresh, start_server}
use iroh_proxy.Daemon.Reaching.{start_server-Reach}
use iroh_proxy.RemotePath.Samples.{letter_ids}
use iroh_proxy.Daemon.Service.{add_serve, list_serves, del_forward}
use iroh_proxy.Daemon.Owned.{Reach, starts, adds, connects, serves, arrives, Owned}
use iroh_proxy.Daemon.Listening.{Reach-Owned, del_forward-stops}

abbrev anywhere : Text → Bool
anywhere address = true

abbrev at : Text → ForwardBinding ℕ
at listen = record {
  listen = listen;
  remote = record { endpoint_id = 7; service = text "web" };
  close_on_request_timeout = 2;
}

abbrev caller : ActiveConnection
caller = record { src = text "c"; kind = text "forward"; dst = text "7/tcp/web" }

-- Two listeners, the first with a connection.
abbrev two : Daemon ℕ
two =
    forward_connected 0 caller
      (add_forward_binding anywhere (at (text "b")) false
        (add_forward_binding anywhere (at (text "a")) true (fresh 1)).1).1

two-Reach : Reach two
two-Reach =
    connects 0 caller
      (adds anywhere (at (text "b")) false (adds anywhere (at (text "a")) true (starts 1)))

-- The same with a served name, and a connection that it handles.
abbrev busy : Daemon ℕ
busy =
    let d = (add_serve (text "web") (text "h:1") two).1 in
    record d { connections = (register caller d.connections).1 }

busy-Reach : Reach busy
busy-Reach = arrives caller (serves (text "web") (text "h:1") two-Reach)

abbrev phases : Daemon ℕ → List Phase
phases d = map (λ (n, t). t.phase) d.tasks

forward_runs : Unit {0}
unfolding text_computes lookup insert remove contains_key keys register drop_guard len spawn
    send_state add_forward_binding abort change_task cancelled forward_connected
    forward_disconnected accept_failed del_forward add_serve list_serves add_serve_route
    sync_endpoint_alpns values validate_service_name is_bad_char service_to_alpn trim
forward_runs = tt

-- A listener whose `accept` failed stays in the table.
forward_tests :
    (keys two.tasks ≡ 0 ∷ 1 ∷ [])
    × (len two.connections ≡ 1)
    × (phases (del_forward (text "a") two).1 ≡ cancelling ∷ accepting ∷ [])
    × (phases (cancelled 0 (del_forward (text "a") two).1) ≡ stopped ∷ accepting ∷ [])
    × (phases (cancelled 1 two) ≡ accepting ∷ accepting ∷ [])
    × (len (del_forward (text "a") two).1.connections ≡ 1)
    × (len (forward_disconnected 0 1 two).connections ≡ 0)
    × (phases (accept_failed 0 two) ≡ stopped ∷ accepting ∷ [])
    × (keys (accept_failed 0 two).forwards ≡ text "a" ∷ text "b" ∷ [])
    × (is_ok (add_forward_binding anywhere (at (text "a")) true (accept_failed 0 two)).0 ≡ false)
unfolding forward_runs
forward_tests = (refl, refl, refl, refl, refl, refl, refl, refl, refl, refl)

busy_serves : list_serves busy ≡ (text "web", text "h:1") ∷ []
unfolding forward_runs
busy_serves = refl

started-Owned : Owned {EndpointId = ℕ} (start_server anywhere [] [] (fresh 1)).1
started-Owned = Reach-Owned (start_server-Reach anywhere [] [] 1)

Reach-Owned_example : Owned busy
Reach-Owned_example = Reach-Owned busy-Reach

abbrev task_a : ForwardTask ℕ
task_a = record { binding = at (text "a"); phase = cancelling; conns = 1 ∷ [] }

scheduled : lookup 0 (del_forward (text "a") busy).1.tasks ≡ some task_a
unfolding forward_runs
scheduled = refl

-- A server that serves a name, too.
del_forward-stops_example :
    (task_a.phase ≢ accepting)
    × (lookup 0 (cancelled 0 (del_forward (text "a") busy).1).tasks
        ≡ some (record task_a { phase = stopped }))
del_forward-stops_example = del_forward-stops busy-Reach (text "a") 0 task_a scheduled refl

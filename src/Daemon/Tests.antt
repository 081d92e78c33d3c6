-- ===== src/Daemon/Tests.antt =====
-- Runs of src/daemon/, and the theorems at concrete inputs.
use iroh_proxy.Common.{
  ℕ, ◌+◌, ◌<◌, ◌≡◌, refl, Bool, true, false, none, [], ◌∷◌, ok, err, arith, map, nat_eq, ℕ_Keyed,
  if◌then◌else◌,
}
use iroh_proxy.Common.Dict.{keys, lookup, insert, remove, contains_key, values}
use iroh_proxy.Common.Text.{Text, text, text_Keyed}
use iroh_proxy.Common.Utf8.{text_computes}
use iroh_proxy.RemotePath.{validate_service_name, is_bad_char, service_to_alpn, parse, show_remote}
use iroh_proxy.RemotePath.Samples.{letter_ids}
use iroh_proxy.Daemon.Connections.{
  ActiveConnection, ConnectionRegistry, empty_registry, register, drop_guard, len,
  connection_opened, connection_closed,
}
use iroh_proxy.Daemon.Tracking.{
  Reach, fresh_start, registers, count, Reach-tracked, drop_guard-lookup,
}
use iroh_proxy.Daemon.State.{
  Daemon, cancelling, add_serve_route, sync_endpoint_alpns, add_forward_binding, listener_exists,
  not_served, duplicate_service,
}
use iroh_proxy.Daemon.Service.{
  add_serve, del_serve, add_forward, del_forward, status, list_serves, list_forwards,
}
use iroh_proxy.Daemon.Served.{
  AddsServe, DelsServe, add_serve-AddsServe, del_serve-DelsServe, del_serve-add_serve,
}

abbrev idle : Daemon ℕ
idle = record {
  endpoint_id = 0;
  alpns = [];
  routes = [];
  forwards = [];
  tasks = [];
  next_task = 0;
  connections = empty_registry;
}

runs : Unit {0}
unfolding text_computes keys lookup insert remove contains_key values validate_service_name
    is_bad_char service_to_alpn parse show_remote register drop_guard len add_serve_route
    sync_endpoint_alpns add_forward_binding add_serve del_serve add_forward del_forward status
    list_serves list_forwards
runs = tt

abbrev web : Daemon ℕ
web = (add_serve (text "web") (text "h:1") idle).1

abbrev anywhere : Text → Bool
anywhere address = true

abbrev linked : Daemon ℕ
linked = (add_forward anywhere (text "l") (text "A/tcp/web") true 2 web).1

daemon_tests :
    (list_serves web ≡ (text "web", text "h:1") ∷ [])
    × (web.alpns ≡ text "iroh-proxy/tcp/web" ∷ [])
    × ((add_serve (text "web") (text "h:2") web).0 ≡ err (duplicate_service (text "web")))
    × ((del_serve (text "ssh") web).0 ≡ err (not_served (text "ssh")))
    × (list_forwards linked ≡ (text "l", text "a/tcp/web", true) ∷ [])
    × ((add_forward anywhere (text "l") (text "b/tcp/x") false 2 linked).0
        ≡ err (listener_exists (text "l")))
    × (map (λ (n, t). t.phase) (del_forward (text "l") linked).1.tasks ≡ cancelling ∷ [])
unfolding runs
daemon_tests = (refl, refl, refl, refl, refl, refl, refl)

add_serve-AddsServe_example :
    AddsServe (text "web") (text "h:1") idle (add_serve (text "web") (text "h:1") idle)
add_serve-AddsServe_example = add_serve-AddsServe (text "web") (text "h:1") idle

del_serve-DelsServe_example : DelsServe (text "web") idle (del_serve (text "web") idle)
del_serve-DelsServe_example = del_serve-DelsServe (text "web") idle tt

del_serve-add_serve_example :
    let r = del_serve (text "web") web in (r.0 ≡ ok tt) × (r.1.routes ≡ []) × (r.1.alpns ≡ [])
unfolding runs
del_serve-add_serve_example = del_serve-add_serve (text "web") (text "h:1") idle refl

abbrev caller : ActiveConnection
caller = record { src = text "peer"; kind = text "serve"; dst = text "web" }

abbrev one_open : ConnectionRegistry
one_open = (register caller empty_registry).1

one_open-Reach : Reach one_open (1 ∷ []) (connection_opened ∷ [])
unfolding register
one_open-Reach = registers caller fresh_start (omega arith)

Reach-tracked_example :
    (one_open.events ≡ connection_opened ∷ [])
    × (count connection_opened one_open.events
        ≡ count connection_closed one_open.events + len one_open)
    × (len one_open ≡ 1)
    × (keys one_open.active ≡ 1 ∷ [])
    × ((1 < one_open.next_id) × Unit {0})
    × (lookup one_open.next_id one_open.active ≡ none)
unfolding len register
Reach-tracked_example = Reach-tracked one_open-Reach

own_connection_dropped :
    lookup 1 (drop_guard 1 one_open).active
    ≡ (if nat_eq 1 1 then none else lookup 1 one_open.active)
own_connection_dropped = drop_guard-lookup 1 1 one_open-Reach

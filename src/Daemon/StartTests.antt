-- ===== src/Daemon/StartTests.antt =====
-- Runs of src/daemon/mod.rs and routes.rs, and the theorems at concrete inputs.
use iroh_proxy.Common.{ℕ, ◌≡◌, refl, Bool, true, some, [], ◌∷◌, List, ok, err, arith}
use iroh_proxy.Common.Dict.{keys, lookup, insert, remove, contains_key, HasDistinctKeys}
use iroh_proxy.Common.Text.{Text, text, text_Keyed}
use iroh_proxy.Common.Utf8.{text_computes, IsText}
use iroh_proxy.RemotePath.{validate_service_name, is_bad_char, service_to_alpn, parse}
use iroh_proxy.RemotePath.Samples.{letter_ids}
use iroh_proxy.Config.Rules.{ServeService, ForwardService}
use iroh_proxy.Daemon.Connections.{ConnectionRegistry, register, drop_guard}
use iroh_proxy.Daemon.State.{
  Daemon, duplicate_service, add_serve_route, sync_endpoint_alpns, add_forward_binding,
}
use iroh_proxy.Daemon.Service.{add_serve, del_serve}
use iroh_proxy.Daemon.Served.{route_of, route_to}
use iroh_proxy.Daemon.Start.{fresh, start_server}
use iroh_proxy.Daemon.Loaded.{configured, start_server_lem}
use iroh_proxy.Daemon.Incoming.{Incoming, unknown_service, handle_incoming}
use iroh_proxy.Daemon.Routed.{proxied, handle_incoming-del_serve, handle_incoming-add_serve}
use iroh_proxy.Proxy.Pump.{bytes}

abbrev service : Text → Text → ServeService
service name target = record { name = name; target = target }

abbrev two : List ServeService
two = service (text "web") (text "h:1") ∷ service (text "ssh") (text "h:22") ∷ []

abbrev forward : ForwardService
forward = record { listen = text "l"; remote = text "a/tcp/web"; close_on_request_timeout_secs = 2 }

abbrev anywhere : Text → Bool
anywhere address = true

runs : Unit {0}
unfolding text_computes keys lookup insert remove contains_key validate_service_name is_bad_char
    service_to_alpn parse register drop_guard add_serve_route sync_endpoint_alpns
    add_forward_binding add_serve del_serve start_server handle_incoming
runs = tt

abbrev started : Daemon ℕ
started = (start_server anywhere two (forward ∷ []) (fresh {EndpointId = ℕ} 0)).1

start_tests :
    (keys started.routes ≡ text "iroh-proxy/tcp/web" ∷ text "iroh-proxy/tcp/ssh" ∷ [])
    × (started.alpns ≡ keys started.routes)
    × (keys started.forwards ≡ text "l" ∷ [])
    × ((start_server anywhere
          (service (text "web") (text "h:2") ∷ two)
          []
          (fresh {EndpointId = ℕ} 0)).0
        ≡ err (duplicate_service (text "web")))
unfolding runs
start_tests = (refl, refl, refl, refl)

IsText-web : IsText (text "web")
IsText-web = ground arith

IsText-ssh : IsText (text "ssh")
IsText-ssh = ground arith

distinct_routes : HasDistinctKeys started.routes
unfolding runs
distinct_routes = ground arith

start_server_lem_example :
    ((name : Text) → IsText name → route_of name started ≡ configured name two)
    × (started.alpns ≡ keys started.routes)
unfolding runs
start_server_lem_example =
    start_server_lem {EndpointId = ℕ} anywhere two (forward ∷ []) 0 (IsText-web, (IsText-ssh, tt))
      refl

-- A peer that asks for `web`, with a request of 3 bytes and a response of 4.
abbrev asks_web : Incoming
asks_web = record {
  negotiated = some (text "iroh-proxy/tcp/web");
  peer = text "p";
  stream_accepted = true;
  reachable = anywhere;
  streams = record {
    up_end = some 20;
    up = ok 4;
    down_end = some 10;
    down = bytes 3;
    timer_late = 0;
  };
}

abbrev alone : ConnectionRegistry → ConnectionRegistry
alone registry = registry

handle_incoming-del_serve_example :
    let later = (del_serve (text "web") started).1 in
    handle_incoming asks_web alone later ≡ some (unknown_service, later.connections)
unfolding runs
handle_incoming-del_serve_example =
    handle_incoming-del_serve asks_web alone (text "web") started IsText-web distinct_routes refl
      refl

handle_incoming-add_serve_example :
    let later = (add_serve (text "web") (text "h:1") (fresh {EndpointId = ℕ} 0)).1 in
    handle_incoming asks_web alone later
    ≡ proxied asks_web alone 4 3 (route_to (text "web") (text "h:1")) later.connections
unfolding runs
handle_incoming-add_serve_example =
    handle_incoming-add_serve asks_web alone (text "web") (text "h:1") (fresh {EndpointId = ℕ} 0) 20
      4 10 3 IsText-web refl refl refl refl refl refl refl refl

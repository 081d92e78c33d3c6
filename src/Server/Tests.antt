-- ===== src/Server/Tests.antt =====
-- Runs of the server command of src/main.rs, and the theorem at a concrete input.
use iroh_proxy.Common.{
  ℕ, ◌≡◌, refl, subst, true, false, none, some, [], ◌∷◌, ok, err, All, is_ok, arith,
}
use iroh_proxy.Common.Dict.{keys, lookup, insert, remove, contains_key}
use iroh_proxy.Common.Text.{Text, text, text_Keyed, trim}
use iroh_proxy.Common.Utf8.{text_computes, IsText}
use iroh_proxy.Common.Decimal.{decimal}
use iroh_proxy.RemotePath.{validate_service_name, is_bad_char, service_to_alpn}
use iroh_proxy.RemotePath.Samples.{letter_ids}
use iroh_proxy.Config.Rules.{Config, insert_serve, serve_services}
use iroh_proxy.Config.Files.{
  Disk, temp_name, write_config, write_config_atomic, load_config, load_config_or_default,
  add_persistent_serve_rule,
}
use iroh_proxy.Config.Codec.{sample_toml}
use iroh_proxy.ControlPlane.Socket.{
  SocketOs, already_served, bind_control_listener, start_p2p_control_plane,
}
use iroh_proxy.ControlPlane.Starting.{idle_others}
use iroh_proxy.Commands.Samples.{faultless, anywhere}
use iroh_proxy.Daemon.State.{add_serve_route, sync_endpoint_alpns}
use iroh_proxy.Daemon.Start.{start_server}
use iroh_proxy.Keys.{
  at_path, lock_failed, load_or_create_serve_key_and_lock, lock_serve_key_file, load_locked,
  load_or_create_secret_key_from_file, restrict_secret_key_permissions, load_existing, store_new,
  write_all,
}
use iroh_proxy.Keys.Samples.{byte_key, byte_key-ReadsBack, sound}
use iroh_proxy.Server.{
  Machine, Calls, control_error, key_error, shut_down, accept_ended, endpoint_closed, start_command,
  server_command,
}
use iroh_proxy.Server.Runs.{Starts, TextNames, start_command-Starts}

abbrev path : Text
path = text "c"

abbrev written : Disk
written =
    (add_persistent_serve_rule faultless path (text "web") (text "h:1")
      (record { files = []; temp_counter = 0 })).1

abbrev idle : Machine
idle = record {
  key = at_path none false;
  disk = written;
  control = record { dir_mode = none; socket = none };
}

abbrev works : SocketOs
works = record {
  process = 1;
  create_mode = 493;
  bind_fails = λ again. false;
  metadata_fails = λ again. false;
  probe_fails = false;
  remove_fails = false;
  create_dir_fails = false;
  restrict_dir_fails = false;
  restrict_socket_fails = false;
}

abbrev calls : Calls ℕ ℕ
calls = record {
  key_os = sound;
  os = faultless;
  socket_os = works;
  others = idle_others;
  builds = true;
  bind = anywhere;
  id_of = λ key. key;
  remove_fails = false;
}

-- Another server, under another key, answers on the control socket.
abbrev occupied : Machine
occupied = record idle {
  control = record {
    dir_mode = none;
    socket = some (record { owner = 2; answers = true; mode = 384 });
  };
}

server_runs : Unit {0}
unfolding text_computes keys lookup insert remove contains_key trim validate_service_name
    is_bad_char service_to_alpn temp_name decimal write_config write_config_atomic load_config
    load_config_or_default add_persistent_serve_rule insert_serve sample_toml add_serve_route
    sync_endpoint_alpns start_server bind_control_listener start_p2p_control_plane
    load_or_create_serve_key_and_lock lock_serve_key_file load_locked
    load_or_create_secret_key_from_file restrict_secret_key_permissions load_existing store_new
    write_all start_command server_command
server_runs = tt

server_tests :
    (is_ok (start_command calls path 9 idle).0 ≡ true)
    × ((server_command calls path shut_down 9 idle).0 ≡ ok tt)
    × ((server_command calls path accept_ended 9 idle).0 ≡ err endpoint_closed)
    × ((server_command calls path shut_down 9 occupied).0 ≡ err (control_error already_served))
    × ((server_command calls path shut_down 9 occupied).1.control.socket ≡ occupied.control.socket)
    × ((server_command calls path shut_down 9 (record idle { key = at_path none true })).0
        ≡ err (key_error lock_failed))
unfolding server_runs
server_tests = (refl, refl, refl, refl, refl, refl)

IsText-web : IsText (text "web")
IsText-web = ground arith

abbrev served_web : Config
served_web = record {
  serve = some (record { services = record { name = text "web"; target = text "h:1" } ∷ [] });
  forward = none;
}

written-TextNames : TextNames calls path idle
unfolding server_runs
written-TextNames config e =
    let same : served_web ≡ config = cc e in
    subst (λ (c : Config). All (λ service. IsText service.name) (serve_services c.serve)) same
      (IsText-web, tt)

start_command-Starts_example : Starts calls path idle (start_command calls path 9 idle)
start_command-Starts_example =
    start_command-Starts calls path idle 9 byte_key-ReadsBack refl refl written-TextNames (record {
      probe_mode = λ _. refl;
      remove_mode = λ _. refl;
      bind_mode = λ _. refl;
      chmod_mode = λ _. refl;
      chmod_socket = λ _ e. e;
    })

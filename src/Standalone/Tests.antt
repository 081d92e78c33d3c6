-- ===== src/Standalone/Tests.antt =====
-- Runs of src/forward.rs and of the commands that forward without a server, and the theorems at
-- concrete inputs.
use iroh_proxy.Common.{
  ℕ, ◌≡◌, ◌↔◌, refl, Bool, true, false, not, none, some, List, [], ◌∷◌, ok, err, any, ◌==◌,
}
use iroh_proxy.Common.Dict.{keys, lookup, insert, remove, contains_key}
use iroh_proxy.Common.Text.{Text, text, text_Keyed, trim}
use iroh_proxy.Common.Utf8.{text_computes}
use iroh_proxy.Common.Decimal.{decimal}
use iroh_proxy.RemotePath.{validate_service_name, is_bad_char, parse}
use iroh_proxy.RemotePath.Samples.{letter_ids}
use iroh_proxy.Config.Rules.{insert_forward}
use iroh_proxy.Config.Files.{
  Disk, temp_name, write_config, write_config_atomic, load_config, load_config_or_default,
  add_persistent_forward_rule,
}
use iroh_proxy.Config.Codec.{sample_toml}
use iroh_proxy.Daemon.State.{ForwardBinding}
use iroh_proxy.Commands.Samples.{faultless}
use iroh_proxy.Proxy.Pump.{Streams, bytes, closed}
use iroh_proxy.Standalone.{
  usage, bind_failed, pass_fd, forward_command, forward_config_command, forward_bindings,
  forward_stdio, run_fdpass_child,
}
use iroh_proxy.Standalone.Bindings.{Serves, forward_config_command_iff}
use iroh_proxy.Standalone.Relay.{Relays, forward_stdio-Relays}

abbrev path : Text
path = text "c"

-- An address can be bound once.
abbrev once : List Text → Text → Bool
once held address = not (any (λ a. a == address) held)

abbrev written : Disk
written =
    (add_persistent_forward_rule faultless ℕ path (text "l") (text "a/tcp/x") 2
      (record { files = []; temp_counter = 0 })).1

abbrev binding : ForwardBinding ℕ
binding = record {
  listen = text "l";
  remote = record { endpoint_id = 0; service = text "x" };
  close_on_request_timeout = 2;
}

abbrev exchange : Streams
exchange = record {
  up_end = some 3;
  up = ok 10;
  down_end = some 900;
  down = bytes 20;
  timer_late = 0;
}

standalone_runs : Unit {0}
unfolding text_computes keys lookup insert remove contains_key trim validate_service_name
    is_bad_char parse temp_name decimal write_config write_config_atomic load_config
    load_config_or_default add_persistent_forward_rule insert_forward sample_toml forward_command
    forward_config_command forward_bindings forward_stdio run_fdpass_child
standalone_runs = tt

standalone_tests :
    (forward_config_command {E = Unit {0}} faultless true true once path written
      ≡ ok (binding ∷ []))
    × (forward_bindings {E = Unit {0}} true once (binding ∷ binding ∷ [])
        ≡ err (bind_failed (text "l")))
    × (forward_command {EndpointId = ℕ} {E = Unit {0}} false 2 true none (text "a/tcp/x") none
        ≡ ok (pass_fd (text "a/tcp/x")))
    × (forward_command {EndpointId = ℕ} {E = Unit {0}} true 2 true none
          (text "l")
          (some (text "a/tcp/x"))
        ≡ err usage)
    × (run_fdpass_child {E = Unit {0}} true true (ok tt) (some exchange)
        ≡ some (record {
          result = ok (record { up_bytes = 10; down_bytes = 20; timed_out = false });
          link = closed;
        }))
unfolding standalone_runs
standalone_tests = (refl, refl, refl, refl, refl)

forward_config_command_iff_example :
    (forward_config_command {E = Unit {0}} faultless true true once path written
      ≡ ok (binding ∷ []))
    ↔ ((true ≡ true) × Serves (Unit {0}) faultless true once path written (binding ∷ []))
forward_config_command_iff_example =
    forward_config_command_iff (Unit {0}) faultless true once path written (binding ∷ []) true

forward_stdio-Relays_example :
    Relays {E = Unit {0}} true (ok tt) (some exchange) (forward_stdio true (ok tt) (some exchange))
forward_stdio-Relays_example = forward_stdio-Relays true (ok tt) (some exchange)

-- ===== src/Standalone.antt =====
-- src/forward.rs, the relay of src/fdpass.rs, and the commands `Forward` and `ForwardConfig` of
-- src/main.rs: forwarding without a server. Endpoints, connections, keys and sockets are those of the
-- other components; whether a call on them succeeds is an argument.
use iroh_proxy.Common.{
  ℕ, Bool, true, false, Option, none, some, List, [], ◌∷◌, ◌++◌, map, Result, ok, err,
  if◌then◌else◌, is_empty, is_some,
}
use iroh_proxy.Common.Text.{Text}
use iroh_proxy.RemotePath.{Iroh, RemotePath, PathError, parse}
use iroh_proxy.Config.Rules.{Config, ConfigError, ForwardService, ForwardSection}
use iroh_proxy.Config.Files.{Toml, Os, Disk, load_config}
use iroh_proxy.Daemon.State.{ForwardBinding}
use iroh_proxy.Proxy.Pump.{
  Streams, PumpStats, PumpError, Pumped, pump_streams, Link, not_connected, closed,
}
pub mod Relay
pub mod Bindings
mod Tests

pub data StandaloneError (E : Type 0) : Type 0 where
  usage key_failed no_bindings endpoint_failed open_bi_failed descriptor_failed missing_section :
      StandaloneError E
  config_failed : ConfigError → StandaloneError E
  invalid_remote : PathError → StandaloneError E
  bind_failed : Text → StandaloneError E
  connect_failed : E → StandaloneError E
  pump_failed : PumpError → StandaloneError E

-- What `Commands::Forward` runs.
pub data ForwardMode (EndpointId : Type 0) : Type 0 where
  relay_child : ℕ → RemotePath EndpointId → ForwardMode EndpointId
  pass_fd : Text → ForwardMode EndpointId
  listen_mode : ForwardBinding EndpointId → ForwardMode EndpointId
  stdio_mode : RemotePath EndpointId → ForwardMode EndpointId

module _ {EndpointId E : Type 0} where
  -- The listeners, bound one after another; `bind` sees the addresses that the call holds.
  unfoldable pub prepare :
      (List Text → Text → Bool)
      → List (ForwardBinding EndpointId)
      → List (ForwardBinding EndpointId)
      → Result (StandaloneError E) (List (ForwardBinding EndpointId))
  prepare bind prepared [] = ok prepared
  prepare bind prepared (binding ∷ bindings) =
      let rest = prepare bind (prepared ++ (binding ∷ [])) bindings in
      if bind (map (λ b. b.listen) prepared) binding.listen
      then rest
      else err (bind_failed binding.listen)

  -- The bindings that are served from then on; without an error the call does not return. An error
  -- drops the listeners that were bound.
  unfoldable pub forward_bindings :
      Bool
      → (List Text → Text → Bool)
      → List (ForwardBinding EndpointId)
      → Result (StandaloneError E) (List (ForwardBinding EndpointId))
  unfolding prepare
  forward_bindings builds bind bindings =
      if is_empty bindings
      then err no_bindings
      else if builds
      then prepare bind [] bindings
      else err endpoint_failed

  module _ ⦃iroh : Iroh EndpointId⦄ where
    abbrev pub with_remote :
        {A : Type 0}
        → Result PathError (RemotePath EndpointId)
        → (RemotePath EndpointId → Result (StandaloneError E) A)
        → Result (StandaloneError E) A
    with_remote (ok remote) go = go remote
    with_remote (err e) go = err (invalid_remote e)

    abbrev pub and_binding :
        ForwardService
        → Result (StandaloneError E) (List (ForwardBinding EndpointId))
        → RemotePath EndpointId
        → Result (StandaloneError E) (List (ForwardBinding EndpointId))
    and_binding entry (ok bindings) remote = ok (
        record {
          listen = entry.listen;
          remote = remote;
          close_on_request_timeout = entry.close_on_request_timeout_secs;
        }
        ∷ bindings)
    and_binding entry (err e) remote = err e

    -- The bindings of the entries, or the error of the first entry whose path is not valid.
    unfoldable pub read_bindings :
        List ForwardService → Result (StandaloneError E) (List (ForwardBinding EndpointId))
    read_bindings [] = ok []
    read_bindings (entry ∷ entries) =
        let rest = read_bindings entries in
        with_remote (parse entry.remote) (and_binding entry rest)

    abbrev pub serve_bindings :
        Bool
        → (List Text → Text → Bool)
        → Result (StandaloneError E) (List (ForwardBinding EndpointId))
        → Result (StandaloneError E) (List (ForwardBinding EndpointId))
    serve_bindings builds bind (ok bindings) = forward_bindings builds bind bindings
    serve_bindings builds bind (err e) = err e

    abbrev pub serve_section :
        Bool
        → (List Text → Text → Bool)
        → Option ForwardSection
        → Result (StandaloneError E) (List (ForwardBinding EndpointId))
    serve_section builds bind none = err missing_section
    serve_section builds bind (some section) =
        serve_bindings builds bind (read_bindings section.services)

    abbrev pub serve_config :
        Bool
        → (List Text → Text → Bool)
        → Result ConfigError Config
        → Result (StandaloneError E) (List (ForwardBinding EndpointId))
    serve_config builds bind (ok cfg) = serve_section builds bind cfg.forward
    serve_config builds bind (err e) = err (config_failed e)

    -- `Commands::ForwardConfig`.
    unfoldable pub forward_config_command :
        ⦃toml : Toml⦄
        → Os
        → Bool
        → Bool
        → (List Text → Text → Bool)
        → Text
        → Disk
        → Result (StandaloneError E) (List (ForwardBinding EndpointId))
    unfolding read_bindings forward_bindings
    forward_config_command os key_loads builds bind config disk =
        if key_loads
        then serve_config builds bind (load_config os config disk).0
        else err key_failed

    abbrev pub with_key :
        Bool
        → Result (StandaloneError E) (ForwardMode EndpointId)
        → Result (StandaloneError E) (ForwardMode EndpointId)
    with_key key_loads go = if key_loads then go else err key_failed

    abbrev pub listen_or_stdio :
        Bool → ℕ → Text → Option Text → Result (StandaloneError E) (ForwardMode EndpointId)
    listen_or_stdio key_loads timeout_secs first (some remote) = with_key key_loads (
        with_remote (parse remote) λ parsed. ok (
          listen_mode
            (record { listen = first; remote = parsed; close_on_request_timeout = timeout_secs })))
    listen_or_stdio key_loads timeout_secs first none =
        with_key key_loads (with_remote (parse first) λ parsed. ok (stdio_mode parsed))

    -- `Commands::Forward`; the path is checked before a relay is spawned.
    unfoldable pub forward_command :
        Bool
        → ℕ
        → Bool
        → Option ℕ
        → Text
        → Option Text
        → Result (StandaloneError E) (ForwardMode EndpointId)
    forward_command key_loads timeout_secs fdpass (some fd) first second =
        if is_some second
        then err usage
        else with_key key_loads (with_remote (parse first) λ parsed. ok (relay_child fd parsed))
    forward_command key_loads timeout_secs true none first second =
        if is_some second then err usage else with_remote (parse first) λ parsed. ok (pass_fd first)
    forward_command key_loads timeout_secs false none first second =
        listen_or_stdio key_loads timeout_secs first second

-- How a relayed stream ends.
pub record Relayed (E : Type 0) : Type 0 where
  pub result : Result (StandaloneError E) PumpStats
  pub link : Link

module _ {E : Type 0} where
  abbrev pub relayed : Result PumpError PumpStats → Relayed E
  relayed (ok stats) = record { result = ok stats; link = closed }
  relayed (err e) = record { result = err (pump_failed e); link = closed }

  abbrev pub after_relay : Option Pumped → Option (Relayed E)
  after_relay none = none
  after_relay (some pumped) = some (relayed pumped.result)

  -- From the connection on; `none` stands for a call that does not return.
  abbrev pub relay : Result E (Unit {0}) → Option Streams → Option (Relayed E)
  relay (err e) open_bi = some (record { result = err (connect_failed e); link = not_connected })
  relay (ok connected) none = some (record { result = err open_bi_failed; link = closed })
  relay (ok connected) (some streams) = after_relay (pump_streams streams none)

  unfoldable pub forward_stdio : Bool → Result E (Unit {0}) → Option Streams → Option (Relayed E)
  unfolding pump_streams
  forward_stdio builds connected open_bi =
      if builds
      then relay connected open_bi
      else some (record { result = err endpoint_failed; link = not_connected })

  -- `adopted` tells whether the inherited descriptor is made non-blocking and registered.
  unfoldable pub run_fdpass_child :
      Bool → Bool → Result E (Unit {0}) → Option Streams → Option (Relayed E)
  unfolding forward_stdio
  run_fdpass_child adopted builds connected open_bi =
      if adopted
      then forward_stdio builds connected open_bi
      else some (record { result = err descriptor_failed; link = not_connected })

-- ===== src/Server.antt =====
-- src/main.rs and src/daemon/mod.rs: the command `Server`, from its key to the shutdown of
-- `run_server`, with the control socket of macOS. The state is what the process shares with others:
-- the key file and its lock, the configuration and the control socket.
use iroh_proxy.Common.{ℕ, Bool, true, false, Option, none, some, Result, ok, err, if◌then◌else◌}
use iroh_proxy.Common.Text.{Text}
use iroh_proxy.RemotePath.{Iroh}
use iroh_proxy.Config.Rules.{Config, ConfigError, serve_services, forward_services}
use iroh_proxy.Config.Files.{Toml, Os, Disk, load_config_or_default}
use iroh_proxy.ControlPlane.Socket.{
  ControlDir, SocketOs, Others, ControlError, put_socket, start_p2p_control_plane,
}
use iroh_proxy.Daemon.Start.{fresh, start_server}
use iroh_proxy.Daemon.State.{Daemon, DaemonError}
use iroh_proxy.Keys.{Secret, KeyPath, KeyOs, KeyError, load_or_create_serve_key_and_lock}
pub mod Runs
mod Tests

pub data ServerError : Type 0 where
  key_error : KeyError → ServerError
  config_error : ConfigError → ServerError
  daemon_error : DaemonError → ServerError
  control_error : ControlError → ServerError
  endpoint_failed endpoint_closed : ServerError

pub record Machine : Type 0 where
  pub key : KeyPath
  pub disk : Disk
  pub control : ControlDir

-- How the calls go: `builds` tells whether the endpoint is built, `id_of` is its id for a key, and
-- `remove_fails` whether the removal of the socket at the end fails.
pub record Calls (Key EndpointId : Type 0) : Type 0 where
  pub key_os : KeyOs
  pub os : Os
  pub socket_os : SocketOs
  pub others : Others
  pub builds : Bool
  pub bind : Text → Bool
  pub id_of : Key → EndpointId
  pub remove_fails : Bool

-- The lock ends with the process.
unfoldable pub release : Machine → Machine
release m = record m { key = record m.key { locked = false } }

unfoldable pub cleanup_socket : Bool → Machine → Machine
cleanup_socket remove_fails m =
    if remove_fails then m else record m { control = put_socket none m.control }

-- The end of the accept loop, or a signal.
pub data Ending : Type 0 where
  accept_ended shut_down : Ending

module _ {Key EndpointId : Type 0} (calls : Calls Key EndpointId) where
  -- An error with which the process ends, or the server that accepts connections.
  abbrev pub Startup : Type 0
  Startup = Result ServerError (Daemon EndpointId) × Machine

  abbrev pub started_control :
      Daemon EndpointId → Machine → Result ControlError (Unit {0}) × ControlDir → Startup
  started_control daemon m (ok done, dir) = (ok daemon, record m { control = dir })
  started_control daemon m (err e, dir) =
      (err (control_error e), release (record m { control = dir }))

  abbrev pub loaded_rules : Machine → Result DaemonError (Unit {0}) × Daemon EndpointId → Startup
  loaded_rules m (ok done, daemon) =
      started_control daemon m (start_p2p_control_plane calls.socket_os calls.others m.control)
  loaded_rules m (err e, daemon) = (err (daemon_error e), release m)

  module _ ⦃iroh : Iroh EndpointId⦄ where
    abbrev pub loaded_config : Key → Machine → Result ConfigError Config → Startup
    loaded_config key m (ok config) =
        if calls.builds
        then loaded_rules m (
            start_server calls.bind (serve_services config.serve) (forward_services config.forward)
              (fresh (calls.id_of key)))
        else (err endpoint_failed, release m)
    loaded_config key m (err e) = (err (config_error e), release m)

    module _ ⦃toml : Toml⦄ ⦃secret : Secret Key⦄ (config_path : Text) where
      abbrev pub loaded_key : Machine → Result KeyError Key × KeyPath → Startup
      loaded_key m (ok key, path) =
          loaded_config key (record m { key = path })
            (load_config_or_default calls.os config_path m.disk).0
      loaded_key m (err e, path) = (err (key_error e), record m { key = path })

      -- `Commands::Server` until connections are accepted; `new_key` is what is generated if there is
      -- no key file.
      unfoldable pub start_command : Key → Machine → Startup
      unfolding release
      start_command new_key m =
          loaded_key m (load_or_create_serve_key_and_lock calls.key_os new_key m.key)

      abbrev pub end_with : Ending → Result ServerError (Unit {0})
      end_with accept_ended = err endpoint_closed
      end_with shut_down = ok tt

      abbrev pub finish : Ending → Startup → Result ServerError (Unit {0}) × Machine
      finish ending (err e, m) = (err e, m)
      finish ending (ok daemon, m) =
          (end_with ending, release (cleanup_socket calls.remove_fails m))

      unfoldable pub server_command :
          Ending → Key → Machine → Result ServerError (Unit {0}) × Machine
      unfolding start_command cleanup_socket release
      server_command ending new_key m = finish ending (start_command new_key m)

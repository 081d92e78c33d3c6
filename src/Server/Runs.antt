-- ===== src/Server/Runs.antt =====
-- src/main.rs and src/daemon/mod.rs: what holds when the server accepts connections, and what an end
-- leaves behind.
use iroh_proxy.Common.{
  ◌≡◌, refl, sym, ◌∙◌, Bool, true, false, none, some, arith, Result, ok, err, is_ok, All, if_cases,
}
use iroh_proxy.Common.Dict.{keys}
use iroh_proxy.Common.Text.{Text}
use iroh_proxy.Common.Utf8.{IsText}
use iroh_proxy.RemotePath.{Iroh}
use iroh_proxy.Config.Rules.{Config, ConfigError, serve_services, forward_services}
use iroh_proxy.Config.Files.{Toml, load_config_or_default}
use iroh_proxy.Config.Loading.{view, load-view}
use iroh_proxy.ControlPlane.Socket.{ControlDir, ControlError}
use iroh_proxy.ControlPlane.Starting.{
  Started, LetsStart, private_socket, start_p2p_control_plane-Started,
}
use iroh_proxy.Daemon.State.{Daemon, DaemonError}
use iroh_proxy.Daemon.Served.{route_of}
use iroh_proxy.Daemon.Loaded.{configured, start_server_lem}
use iroh_proxy.Daemon.Identity.{endpoint_id-start_server}
use iroh_proxy.Keys.{Secret, KeyPath, KeyError, load_or_create_serve_key_and_lock}
use iroh_proxy.Keys.Private.{ReadsBack, IsPrivateMode, StoredIn}
use iroh_proxy.Keys.Locking.{Serves, load_or_create_serve_key_and_lock-Serves}
use iroh_proxy.Server.{
  ServerError, Machine, Calls, release, loaded_config, loaded_key, loaded_rules, started_control,
  start_command, Ending, finish, cleanup_socket, server_command,
}

module _ {Key EndpointId : Type 0} (calls : Calls Key EndpointId) ⦃iroh : Iroh EndpointId⦄
    ⦃toml : Toml⦄ ⦃secret : Secret Key⦄ (config_path : Text) (m : Machine) where
  -- The configuration that the file stands for is what the server serves.
  pub record ServesConfig (daemon : Daemon EndpointId) : Type 0 where
    pub config : Config
    pub read : view config_path m.disk ≡ some config
    pub names :
        (name : Text)
        → IsText name
        → route_of name daemon ≡ configured name (serve_services config.serve)
    pub told : daemon.alpns ≡ keys daemon.routes

  pub record Accepts (daemon : Daemon EndpointId) (after : Machine) : Type 0 where
    pub was_free : m.key.locked ≡ false
    pub locked : after.key.locked ≡ true
    pub key_kept :
        (key : Key) × StoredIn key after.key.file × (daemon.endpoint_id ≡ calls.id_of key)
    pub serves : ServesConfig daemon
    pub reachable : after.control.socket ≡ some (private_socket calls.socket_os)
    pub private : after.control.dir_mode ≡ some 448
    pub disk : after.disk ≡ m.disk

  abbrev pub Starts : Result ServerError (Daemon EndpointId) × Machine → Type 0
  Starts (ok daemon, after) = Accepts daemon after
  Starts (err e, after) = (after.key.locked ≡ m.key.locked) × (after.disk ≡ m.disk)

  -- The configured names are texts.
  abbrev pub TextNames : Type 0
  TextNames =
      (config : Config)
      → view config_path m.disk ≡ some config
      → All (λ service. IsText service.name) (serve_services config.serve)

  module _ (key : Key) (path : KeyPath) (free : m.key.locked ≡ false) (held : path.locked ≡ true)
      (kept : StoredIn key path.file) (keeps : LetsStart calls.socket_os calls.others) where
    control-Starts :
        (daemon : Daemon EndpointId) (c : Result ControlError (Unit {0}) × ControlDir)
        → ServesConfig daemon
        → daemon.endpoint_id ≡ calls.id_of key
        → Started calls.socket_os c
        → Starts (started_control calls daemon (record m { key = path }) c)
    unfolding release
    control-Starts daemon (ok done, dir) serves is (socket, mode) = record {
      was_free = free;
      locked = held;
      key_kept = (key, kept, is);
      serves = serves;
      reachable = socket;
      private = mode;
      disk = refl;
    }
    control-Starts daemon (err e, dir) serves is started = (sym free, refl)

    rules-Starts :
        (r : Result DaemonError (Unit {0}) × Daemon EndpointId)
        → (is_ok r.0 ≡ true → ServesConfig r.1)
        → r.1.endpoint_id ≡ calls.id_of key
        → Starts (loaded_rules calls (record m { key = path }) r)
    unfolding release
    rules-Starts (ok done, daemon) serves is =
        control-Starts daemon _ (serves refl) is
          (start_p2p_control_plane-Started calls.socket_os calls.others m.control keeps)
    rules-Starts (err e, daemon) serves is = (sym free, refl)

    config-Starts :
        TextNames
        → (c : Result ConfigError Config)
        → (load_config_or_default calls.os config_path m.disk).0 ≡ c
        → calls.os.stat_fails ≡ false
        → Starts (loaded_config calls key (record m { key = path }) c)
    unfolding release
    config-Starts texts (err e) l seen = (sym free, refl)
    config-Starts texts (ok config) l seen =
        if_cases Starts calls.builds
          (λ built.
            rules-Starts _
              (λ started.
                let (names, told) =
                  start_server_lem calls.bind (serve_services config.serve)
                    (forward_services config.forward) (calls.id_of key) (texts config read)
                    started in
                record { config = config; read = read; names = names; told = told })
              (endpoint_id-start_server calls.bind (serve_services config.serve)
                (forward_services config.forward) (calls.id_of key)))
          (λ failed. (sym free, refl))
      where
        read : view config_path m.disk ≡ some config
        read = load-view calls.os config_path m.disk config seen l

  key-Starts :
      (r : Result KeyError Key × KeyPath)
      → Serves m.key r
      → TextNames
      → LetsStart calls.socket_os calls.others
      → calls.os.stat_fails ≡ false
      → Starts (loaded_key calls config_path m r)
  key-Starts (err e, path) serves texts keeps seen = (serves.released refl, refl)
  key-Starts (ok key, path) serves texts keeps seen =
      let (held, free) = serves.held refl in
      config-Starts key path free held serves.stored keeps texts _ refl seen

  -- When the command accepts connections, it holds the key's lock, which was free, and the key from
  -- which its endpoint is built is stored so that only its owner may use it; each name is served by
  -- the target that the configuration's file gives it, no other name is, and the endpoint was told
  -- the identifiers of all routes; and the control socket is this process's, for its owner alone.
  -- If it ends with an error before, the lock is as it was. The configuration is not changed. A key
  -- is read back from its bytes, the umask leaves a new file to its owner, the file's state can be
  -- read, the configured names are texts, and other processes leave the mode of the control
  -- directory alone and do not replace the control socket between its binding and its restriction;
  -- none acts on the key's file.
  pub start_command-Starts :
      (new_key : Key)
      → ReadsBack secret
      → IsPrivateMode calls.key_os.create_mode
      → calls.os.stat_fails ≡ false
      → TextNames
      → LetsStart calls.socket_os calls.others
      → Starts (start_command calls config_path new_key m)
  unfolding start_command
  start_command-Starts new_key law private seen texts keeps =
      key-Starts (load_or_create_serve_key_and_lock calls.key_os new_key m.key)
        (load_or_create_serve_key_and_lock-Serves calls.key_os law private new_key m.key) texts
        keeps seen

  -- However the command ends, the lock is as it was and the configuration unchanged, under the same
  -- conditions; and at a shutdown the control socket is gone unless its removal fails.
  pub server_command-leaves :
      (ending : Ending) (new_key : Key)
      → ReadsBack secret
      → IsPrivateMode calls.key_os.create_mode
      → calls.os.stat_fails ≡ false
      → TextNames
      → LetsStart calls.socket_os calls.others
      → let after = server_command calls config_path ending new_key m in
        (after.1.key.locked ≡ m.key.locked)
        × (after.1.disk ≡ m.disk)
        × (after.0 ≡ ok tt → calls.remove_fails ≡ false → after.1.control.socket ≡ none)
  unfolding server_command release cleanup_socket
  server_command-leaves ending new_key law private seen texts keeps =
      left (start_command calls config_path new_key m)
        (start_command-Starts new_key law private seen texts keeps)
    where
      cleaned :
          (fails : Bool) (after : Machine)
          → fails ≡ false
          → (release (cleanup_socket fails after)).control.socket ≡ none
      cleaned fails after e = ground arith

      same_disk :
          (fails : Bool) (after : Machine)
          → (release (cleanup_socket fails after)).disk ≡ after.disk
      same_disk fails after = ground arith

      left :
          (r : Result ServerError (Daemon EndpointId) × Machine)
          → Starts r
          → let after = finish calls config_path ending r in
            (after.1.key.locked ≡ m.key.locked)
            × (after.1.disk ≡ m.disk)
            × (after.0 ≡ ok tt → calls.remove_fails ≡ false → after.1.control.socket ≡ none)
      left (err e, after) (lock, disk) = (lock, disk, λ h. cc h)
      left (ok daemon, after) accepts = (
        sym accepts.was_free,
        same_disk calls.remove_fails after ∙ accepts.disk,
        λ h fine. cleaned calls.remove_fails after fine,
      )

-- ===== src/Commands/Persistent.antt =====
-- src/main.rs and src/tui.rs: adding and deleting rules, at the running server and, where that is
-- asked for, in the configuration. The commands are those of a client that is connected; no other
-- client's call comes between its calls.
use iroh_proxy.Common.{ℕ, Bool, true, false, ◌||◌, Result, ok, err, if◌then◌else◌, is_empty}
use iroh_proxy.Common.State.{Action}
use iroh_proxy.Common.Text.{Text, trim}
use iroh_proxy.RemotePath.{Iroh, RemotePath, PathError, parse}
use iroh_proxy.Config.Rules.{ConfigError}
use iroh_proxy.Config.Files.{
  Toml, Os, Disk, Io, add_persistent_serve_rule, add_persistent_forward_rule,
  remove_persistent_forward_rule, remove_persistent_forward_rule_by_listen,
}
use iroh_proxy.Daemon.State.{Daemon, DaemonError, DaemonAction}
use iroh_proxy.Daemon.Service.{add_serve, del_serve, add_forward, del_forward}

-- The server's state and the directory of the configuration.
pub record World (EndpointId : Type 0) : Type 0 where
  pub daemon : Daemon EndpointId
  pub disk : Disk

-- A failed persistence is reported with the result of the rollback. The last two errors are those
-- of a dialog whose client cannot connect, or whose call does not reach the server.
pub data CommandError : Type 0 where
  required : CommandError
  invalid_remote_path : PathError → CommandError
  call_failed : DaemonError → CommandError
  persist_failed : ConfigError → Result DaemonError (Unit {0}) → CommandError
  update_failed : ConfigError → CommandError
  not_connected not_reached : CommandError

abbrev pub Command : Type 0 → Type 0 → Type 0
Command EndpointId A = Action (World EndpointId) CommandError A

module _ {EndpointId : Type 0} where
  abbrev pub rolled_back :
      ConfigError
      → Disk
      → Result DaemonError (Unit {0}) × Daemon EndpointId
      → Result CommandError (Unit {0}) × World EndpointId
  rolled_back e disk (rollback, daemon) =
      (err (persist_failed e rollback), record { daemon = daemon; disk = disk })

  abbrev pub after_persist :
      DaemonAction EndpointId
      → Daemon EndpointId
      → Result ConfigError (Unit {0}) × Disk
      → Result CommandError (Unit {0}) × World EndpointId
  after_persist undo daemon (ok done, disk) = (ok tt, record { daemon = daemon; disk = disk })
  after_persist undo daemon (err e, disk) = rolled_back e disk (undo daemon)

  abbrev pub after_call :
      Bool
      → DaemonAction EndpointId
      → Io (Unit {0})
      → Disk
      → Result DaemonError (Unit {0}) × Daemon EndpointId
      → Result CommandError (Unit {0}) × World EndpointId
  after_call persistent undo persist disk (err e, daemon) =
      (err (call_failed e), record { daemon = daemon; disk = disk })
  after_call true undo persist disk (ok done, daemon) = after_persist undo daemon (persist disk)
  after_call false undo persist disk (ok done, daemon) =
      (ok tt, record { daemon = daemon; disk = disk })

  -- The call at the server, the persistence, and the opposite call when that fails.
  unfoldable pub add_with_rollback :
      Bool
      → DaemonAction EndpointId
      → DaemonAction EndpointId
      → Io (Unit {0})
      → Command EndpointId (Unit {0})
  add_with_rollback persistent call undo persist w =
      after_call persistent undo persist w.disk (call w.daemon)

  module _ ⦃toml : Toml⦄ (os : Os) (config_path : Text) where
    -- `Commands::AddServe`.
    unfoldable pub add_serve_command : Bool → Text → Text → Command EndpointId (Unit {0})
    unfolding add_with_rollback
    add_serve_command persistent name target =
        add_with_rollback persistent (add_serve name target) (del_serve name)
          (add_persistent_serve_rule os config_path name target)

    -- Enter in the dialog that adds a service.
    unfoldable pub enter_add_service : Bool → Text → Text → Command EndpointId (Unit {0})
    unfolding add_with_rollback
    enter_add_service persist name target w =
        if is_empty (trim name) || is_empty (trim target)
        then (err required, w)
        else add_with_rollback persist (add_serve (trim name) (trim target)) (del_serve (trim name))
            (add_persistent_serve_rule os config_path (trim name) (trim target)) w

    -- `Commands::DelForward`: the result is whether a persisted rule matched.
    abbrev pub after_removal :
        Daemon EndpointId
        → Result ConfigError Bool × Disk
        → Result CommandError Bool × World EndpointId
    after_removal daemon (ok removed, disk) = (ok removed, record { daemon = daemon; disk = disk })
    after_removal daemon (err e, disk) =
        (err (update_failed e), record { daemon = daemon; disk = disk })

    abbrev pub after_delete :
        Bool
        → Io Bool
        → Disk
        → Result DaemonError (Unit {0}) × Daemon EndpointId
        → Result CommandError Bool × World EndpointId
    after_delete persistent remove_rule disk (err e, daemon) =
        (err (call_failed e), record { daemon = daemon; disk = disk })
    after_delete true remove_rule disk (ok done, daemon) = after_removal daemon (remove_rule disk)
    after_delete false remove_rule disk (ok done, daemon) =
        (ok false, record { daemon = daemon; disk = disk })

    unfoldable pub del_forward_command : Bool → Text → Command EndpointId Bool
    del_forward_command persistent listen w =
        after_delete persistent (remove_persistent_forward_rule_by_listen os config_path listen)
          w.disk (del_forward listen w.daemon)

    -- Enter in the dialog that removes a forward. The interface shows the same message whether or not
    -- a persisted rule matched.
    unfoldable pub enter_remove_forward : Bool → Text → Text → Command EndpointId Bool
    enter_remove_forward remove_persistently listen remote w =
        after_delete remove_persistently
          (remove_persistent_forward_rule os config_path listen remote) w.disk
          (del_forward listen w.daemon)

  module _ ⦃iroh : Iroh EndpointId⦄ ⦃toml : Toml⦄ (os : Os) (bind : Text → Bool)
      (config_path : Text) where
    -- `Commands::AddForward`.
    unfoldable pub add_forward_command : Bool → ℕ → Text → Text → Command EndpointId (Unit {0})
    unfolding add_with_rollback
    add_forward_command persistent timeout_secs listen remote =
        add_with_rollback persistent (add_forward bind listen remote persistent timeout_secs)
          (del_forward listen)
          (add_persistent_forward_rule os EndpointId config_path listen remote timeout_secs)

    abbrev pub after_parse :
        Result PathError (RemotePath EndpointId)
        → Command EndpointId (Unit {0})
        → Command EndpointId (Unit {0})
    after_parse (ok parsed) go w = go w
    after_parse (err e) go w = (err (invalid_remote_path e), w)

    -- Enter in the dialog that adds a forward, whose requests may outlast the response by 2 seconds.
    unfoldable pub enter_add_forward : Bool → Text → Text → Command EndpointId (Unit {0})
    unfolding add_with_rollback
    enter_add_forward persist listen remote w =
        if is_empty (trim listen) || is_empty (trim remote)
        then (err required, w)
        else after_parse (parse (trim remote))
            (add_with_rollback persist (add_forward bind (trim listen) (trim remote) persist 2)
              (del_forward (trim listen))
              (add_persistent_forward_rule os EndpointId config_path (trim listen) (trim remote) 2))
            w

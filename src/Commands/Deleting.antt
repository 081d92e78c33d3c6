-- ===== src/Commands/Deleting.antt =====
-- src/main.rs and src/tui.rs: removing a forward, `Commands::DelForward` and the dialog.
use iroh_proxy.Common.{
  ◌≡◌, ◌≢◌, refl, Bool, true, false, Option, none, some, Result, ok, err, ◌==◌, ◌&&◌, ℕ, ℕ_Keyed,
}
use iroh_proxy.Common.Dict.{lookup, remove, HasDistinctKeys}
use iroh_proxy.Common.Text.{Text, text, text_Keyed}
use iroh_proxy.Config.Rules.{ConfigError, ForwardService}
use iroh_proxy.Config.Files.{
  Toml, Os, Io, Disk, remove_persistent_forward_rule_inner,
  remove_persistent_forward_rule_by_listen, remove_persistent_forward_rule,
}
use iroh_proxy.Config.Loading.{RoundTrips}
use iroh_proxy.Config.Forwarding.{Removes, by_listen, remove_persistent_forward_rule_inner-Removes}
use iroh_proxy.Daemon.State.{
  ForwardTask, ForwardRuntime, Daemon, DaemonError, not_forwarded, send_state, abort, accepting,
}
use iroh_proxy.Daemon.Owned.{Reach}
use iroh_proxy.Daemon.Listening.{del_forward-stops, lookup-del_forward, Reach-Owned}
use iroh_proxy.Daemon.Service.{del_forward}
use iroh_proxy.Commands.Persistent.{
  World, CommandError, call_failed, update_failed, after_delete, after_removal, del_forward_command,
  enter_remove_forward,
}

module _ {EndpointId : Type 0} where
  del_forward_cases :
      (P : Result DaemonError (Unit {0}) × Daemon EndpointId → Type 0) (listen : Text)
      (d : Daemon EndpointId)
      → (lookup listen d.forwards ≡ none → P (err (not_forwarded listen), d))
      → P (ok tt, (del_forward listen d).1)
      → P (del_forward listen d)
  unfolding del_forward
  del_forward_cases P listen d absent removed = go (lookup listen d.forwards) refl removed
    where
      after : Option (ForwardRuntime EndpointId) → Result DaemonError (Unit {0}) × Daemon EndpointId
      after o = elim o [
        | none ↦ (err (not_forwarded listen), d)
        | some runtime ↦ (
          ok tt,
          send_state (text "forward-removed")
              (abort runtime.task (record d { forwards = remove listen d.forwards })),
        )
      ]

      go :
          (o : Option (ForwardRuntime EndpointId))
          → lookup listen d.forwards ≡ o
          → P (ok tt, (after o).1)
          → P (after o)
      go none e done = absent e
      go (some runtime) e done = done

module _ {EndpointId : Type 0} ⦃toml : Toml⦄ (config_path listen : Text)
    (matches : ForwardService → Bool) (w : World EndpointId) where
  -- There is no entry at the address, and each task that listens at it is scheduled for cancellation
  -- or over.
  pub record Stopped (daemon : Daemon EndpointId) : Type 0 where
    pub no_entry : lookup listen daemon.forwards ≡ none
    pub no_task :
        (n : ℕ) (t : ForwardTask EndpointId)
        → lookup n daemon.tasks ≡ some t
        → t.binding.listen ≡ listen
        → t.phase ≢ accepting

  -- What an end of the removal means. Without an entry at the server nothing is changed, the
  -- configuration neither; when the configuration cannot be changed, the entry is gone all the same.
  abbrev pub Deleted : Bool → Result CommandError Bool × World EndpointId → Type 0
  Deleted true (ok removed, after) =
      Stopped after.daemon × Removes config_path matches w.disk (ok removed, after.disk)
  Deleted false (ok removed, after) =
      Stopped after.daemon × (removed ≡ false) × (after.disk ≡ w.disk)
  Deleted persistent (err (call_failed e), after) =
      (e ≡ not_forwarded listen) × (lookup listen w.daemon.forwards ≡ none) × (after ≡ w)
  Deleted persistent (err (update_failed e), after) =
      Stopped after.daemon
      × (persistent ≡ true)
      × (lookup config_path after.disk.files ≡ lookup config_path w.disk.files)
  Deleted persistent (err e, after) = ⊥

  after_removal-Deleted :
      (os : Os) (daemon : Daemon EndpointId) (p : Result ConfigError Bool × Disk)
      → Stopped daemon
      → Removes config_path matches w.disk p
      → Deleted true (after_removal os config_path daemon p)
  after_removal-Deleted os daemon (ok removed, disk) stopped removes = (stopped, removes)
  after_removal-Deleted os daemon (err e, disk) stopped removes =
      (stopped, refl, removes.untouched refl)

  del_forward-Stopped : Reach w.daemon → Stopped (del_forward listen w.daemon).1
  del_forward-Stopped reach = record {
    no_entry = lookup-del_forward listen w.daemon (Reach-Owned reach).distinct_forwards;
    no_task = λ n t there same. (del_forward-stops reach listen n t there same).0;
  }

  abbrev rule_removal : Os → Io Bool
  rule_removal os = remove_persistent_forward_rule_inner os config_path matches

  after_delete-Deleted :
      (os : Os) (persistent : Bool)
      → RoundTrips toml
      → os.stat_fails ≡ false
      → HasDistinctKeys w.disk.files
      → Reach w.daemon
      → Deleted persistent (
          after_delete os config_path persistent
            (rule_removal os)
            w.disk
            (del_forward listen w.daemon))
  after_delete-Deleted os true trips seen known reach =
      del_forward_cases
        (λ c. Deleted true (after_delete os config_path true (rule_removal os) w.disk c)) listen
        w.daemon (λ e. (refl, e, refl))
        (after_removal-Deleted os _ _ (del_forward-Stopped reach) (
          remove_persistent_forward_rule_inner-Removes os config_path matches w.disk trips seen
            known))
  after_delete-Deleted os false trips seen known reach =
      del_forward_cases
        (λ c. Deleted false (after_delete os config_path false (rule_removal os) w.disk c)) listen
        w.daemon (λ e. (refl, e, refl)) (del_forward-Stopped reach, refl, refl)

-- If the command succeeds, the server has no entry at the address, and each task that listens at it
-- is scheduled for cancellation or over; with `-p` it reports whether the configuration had a rule
-- for the address, and the file stands for the same configuration without it, and without `-p` the
-- disk stays as it was. It fails if the server has no entry at the address, and then nothing
-- changes; or if the configuration cannot be changed, and then the server is as after a success and
-- the file is as it was. The server's state is one that it reaches, the toml crate reads what it
-- prints, the file's state can be read, and the names of the files differ.
pub del_forward_command-Deleted :
    {EndpointId : Type 0} ⦃toml : Toml⦄ (config_path listen : Text) (w : World EndpointId) (os : Os)
    (persistent : Bool)
    → RoundTrips toml
    → os.stat_fails ≡ false
    → HasDistinctKeys w.disk.files
    → Reach w.daemon
    → Deleted config_path listen
        (by_listen listen)
        w
        persistent
        (del_forward_command os config_path persistent listen w)
unfolding del_forward_command remove_persistent_forward_rule_by_listen
del_forward_command-Deleted config_path listen w os persistent =
    after_delete-Deleted config_path listen (by_listen listen) w os persistent

-- Enter in the dialog that removes a forward does the same, with the rules for the address and the
-- remote path.
pub enter_remove_forward-Deleted :
    {EndpointId : Type 0} ⦃toml : Toml⦄ (config_path listen remote : Text) (w : World EndpointId)
    (os : Os) (persistent : Bool)
    → RoundTrips toml
    → os.stat_fails ≡ false
    → HasDistinctKeys w.disk.files
    → Reach w.daemon
    → Deleted config_path listen
        (λ entry. entry.listen == listen && entry.remote == remote)
        w
        persistent
        (enter_remove_forward os config_path persistent listen remote w)
unfolding enter_remove_forward remove_persistent_forward_rule
enter_remove_forward-Deleted config_path listen remote w os persistent =
    after_delete-Deleted config_path listen
      (λ entry. entry.listen == listen && entry.remote == remote) w os persistent

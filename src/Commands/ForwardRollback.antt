-- ===== src/Commands/ForwardRollback.antt =====
-- src/main.rs and src/tui.rs: a persistent forward takes effect at the server and in the
-- configuration, or at neither.
use iroh_proxy.Common.{
  none, ◌⊎◌, ℕ, ◌≡◌, refl, Bool, true, false, some, Result, ok, err, is_ok, ◌||◌, is_empty, ℕ_Keyed,
  if_cases, Result-cases, inl, inr,
}
use iroh_proxy.Common.Dict.{insert, lookup, HasDistinctKeys}
use iroh_proxy.Common.Text.{Text, text_Keyed, trim}
use iroh_proxy.RemotePath.{Iroh, RemotePath, PathError, parse}
use iroh_proxy.Config.Rules.{Config, ConfigError}
use iroh_proxy.Config.Files.{Toml, Os, Disk, add_persistent_forward_rule}
use iroh_proxy.Config.Loading.{view, RoundTrips}
use iroh_proxy.Config.Forwarding.{forward_rule}
use iroh_proxy.Config.Forwarded.{HasForward, AddsForward, add_persistent_forward_rule-AddsForward}
use iroh_proxy.Daemon.State.{ForwardBinding, Daemon, DaemonError}
use iroh_proxy.Daemon.Owned.{Reach}
use iroh_proxy.Daemon.Forwarded.{
  Listens, aborted_task_of, unused_task, add_forward_binding_cases, del_forward-Listens,
}
use iroh_proxy.Daemon.Service.{add_forward, del_forward}
use iroh_proxy.Commands.Persistent.{
  World, CommandError, required, invalid_remote_path, persist_failed, after_call, after_persist,
  after_parse, add_forward_command, enter_add_forward,
}

module _ {EndpointId : Type 0} ⦃iroh : Iroh EndpointId⦄ ⦃toml : Toml⦄
    (config_path listen remote : Text) (secs : ℕ) (w : World EndpointId) where
  abbrev pub binding_to : RemotePath EndpointId → ForwardBinding EndpointId
  binding_to parsed = record { listen = listen; remote = parsed; close_on_request_timeout = secs }

  -- The rule is in the configuration, and otherwise the same rules as before.
  abbrev pub Stored : Bool → Disk → Type 0
  Stored true disk =
      (before : Config) × (after : Config) × (view config_path w.disk ≡ some before)
      × (view config_path disk ≡ some after)
      × HasForward (forward_rule listen remote secs) before after
  Stored false disk = disk ≡ w.disk

  -- The server listens at the address for the remote path, and has all entries that it had.
  abbrev pub Forwards : Bool → Daemon EndpointId → Type 0
  Forwards persistent daemon =
      (parsed : RemotePath EndpointId) × (parse remote ≡ ok parsed)
      × Listens (binding_to parsed) persistent w.daemon daemon

  -- The rollback of a failed persistence succeeded.
  abbrev pub Undone : Result CommandError (Unit {0}) → Type 0
  Undone (err (persist_failed e rollback)) = rollback ≡ ok tt
  Undone r = Unit

  -- The tasks are those of before, or a new one is among them, whose cancellation is scheduled.
  abbrev pub TasksStay : Daemon EndpointId → Type 0
  TasksStay daemon =
      (daemon.tasks ≡ w.daemon.tasks)
      ⊎ ((binding : ForwardBinding EndpointId) × (lookup w.daemon.next_task w.daemon.tasks ≡ none)
          × (daemon.tasks ≡ insert w.daemon.next_task (aborted_task_of binding) w.daemon.tasks))

  pub record ForwardsOrNot (persistent : Bool)
      (r : Result CommandError (Unit {0}) × World EndpointId) : Type 0 where
    pub listens : is_ok r.0 ≡ true → Forwards persistent r.1.daemon
    pub stored : is_ok r.0 ≡ true → Stored persistent r.1.disk
    pub entries_stay : is_ok r.0 ≡ false → r.1.daemon.forwards ≡ w.daemon.forwards
    pub tasks_stay : is_ok r.0 ≡ false → TasksStay r.1.daemon
    pub file_stays :
        is_ok r.0 ≡ false → lookup config_path r.1.disk.files ≡ lookup config_path w.disk.files
    pub undone : Undone r.0

  not_added :
      (persistent : Bool) (e : CommandError) (disk : Disk) (daemon : Daemon EndpointId)
      → lookup config_path disk.files ≡ lookup config_path w.disk.files
      → daemon.forwards ≡ w.daemon.forwards
      → TasksStay daemon
      → Undone (err e)
      → ForwardsOrNot persistent (err e, record { daemon = daemon; disk = disk })
  not_added persistent e disk daemon file entries tasks undone = record {
    listens = λ h. cc;
    stored = λ h. cc;
    entries_stay = λ h. entries;
    tasks_stay = λ h. tasks;
    file_stays = λ h. file;
    undone = undone;
  }

  after_persist_lem :
      (daemon : Daemon EndpointId) (p : Result ConfigError (Unit {0}) × Disk)
      → Reach w.daemon
      → Forwards true daemon
      → AddsForward config_path (forward_rule listen remote secs) w.disk p
      → ForwardsOrNot true (after_persist (del_forward listen) daemon p)
  after_persist_lem daemon (ok done, disk) reach forwards stores = record {
    listens = λ h. forwards;
    stored = λ h. stores.added refl;
    entries_stay = λ h. cc;
    tasks_stay = λ h. cc;
    file_stays = λ h. cc;
    undone = tt;
  }
  after_persist_lem daemon (err e, disk) reach (parsed, e2, added) stores =
      let (undone, entries, tasks) = del_forward-Listens (binding_to parsed) true daemon added in
      not_added true _ disk _ (stores.untouched refl) entries
        (inr (binding_to parsed, unused_task reach, tasks)) undone

  module _ (os : Os) (bind : Text → Bool) (reach : Reach w.daemon) (trips : RoundTrips toml)
      (seen : os.stat_fails ≡ false) (known : HasDistinctKeys w.disk.files) where
    abbrev Ends : Bool → Result DaemonError (Unit {0}) × Daemon EndpointId → Type 0
    Ends persistent call = ForwardsOrNot persistent (
        after_call persistent (del_forward listen)
          (add_persistent_forward_rule os EndpointId config_path listen remote secs) w.disk call)

    called :
        (persistent : Bool) (daemon : Daemon EndpointId)
        → Forwards persistent daemon
        → Ends persistent (ok tt, daemon)
    called true daemon forwards = after_persist_lem daemon _ reach forwards (
        add_persistent_forward_rule-AddsForward EndpointId os config_path
          (forward_rule listen remote secs) w.disk trips seen known)
    called false daemon forwards = record {
      listens = λ h. forwards;
      stored = λ h. refl;
      entries_stay = λ h. cc;
      tasks_stay = λ h. cc;
      file_stays = λ h. cc;
      undone = tt;
    }

    -- If the command succeeds, the address was free, the server listens at it for the parsed remote
    -- path with a new task, and has the entries and the tasks that it had; with `-p` the
    -- configuration has the rule and otherwise the rules it had, and without `-p` the disk stays as
    -- it was. If it fails, the entries and the configuration file are as they were, and so are the
    -- tasks, but for at most a new one whose cancellation is scheduled, and the rollback of a
    -- failed persistence succeeds. The server's state is one that it reaches, the toml crate reads
    -- what it prints, the file's state can be read, and the names of the files differ.
    pub add_forward_command-ForwardsOrNot :
        (persistent : Bool)
        → ForwardsOrNot persistent
            (add_forward_command os bind config_path persistent secs listen remote w)
    unfolding add_forward_command add_forward
    add_forward_command-ForwardsOrNot persistent =
        elim (Result-cases (parse {EndpointId = EndpointId} remote)) [
          | inl (x, e) ↦ rw e (not_added persistent _ w.disk w.daemon refl refl (inl refl) tt)
          | inr (parsed, e) ↦ rw e (
              add_forward_binding_cases (Ends persistent) bind (binding_to parsed) persistent
                w.daemon (λ e. not_added persistent _ w.disk w.daemon refl refl (inl refl) tt)
                (λ after added. called persistent after (parsed, e, added)))
        ]

-- Enter in the dialog that adds a forward does what the command does with the trimmed texts and 2
-- seconds.
pub enter_add_forward-ForwardsOrNot :
    {EndpointId : Type 0} ⦃iroh : Iroh EndpointId⦄ ⦃toml : Toml⦄ (config_path listen remote : Text)
    (w : World EndpointId) (os : Os) (bind : Text → Bool) (persist : Bool)
    → Reach w.daemon
    → RoundTrips toml
    → os.stat_fails ≡ false
    → HasDistinctKeys w.disk.files
    → ForwardsOrNot config_path
        (trim listen)
        (trim remote)
        2
        w
        persist
        (enter_add_forward os bind config_path persist listen remote w)
unfolding enter_add_forward add_forward_command
enter_add_forward-ForwardsOrNot {EndpointId} config_path listen remote w os bind persist reach trips
      seen known =
    if_cases (ForwardsOrNot config_path (trim listen) (trim remote) 2 w persist)
      (is_empty (trim listen) || is_empty (trim remote))
      (λ blank.
        not_added config_path (trim listen) (trim remote) 2 w persist required w.disk w.daemon refl
          refl (inl refl) tt)
      (λ filled. parsed (parse {EndpointId = EndpointId} (trim remote)))
  where
    parsed :
        (r : Result PathError (RemotePath EndpointId))
        → ForwardsOrNot config_path (trim listen) (trim remote) 2 w persist (
            after_parse os bind config_path r
              (add_forward_command os bind config_path persist 2 (trim listen) (trim remote))
              w)
    parsed (ok path) =
        add_forward_command-ForwardsOrNot config_path (trim listen) (trim remote) 2 w os bind reach
          trips seen known persist
    parsed (err e) =
        not_added config_path (trim listen) (trim remote) 2 w persist (invalid_remote_path e) w.disk
          w.daemon refl refl (inl refl) tt

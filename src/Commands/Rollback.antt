-- ===== src/Commands/Rollback.antt =====
-- src/main.rs and src/tui.rs: a persistent addition takes effect at the server and in the
-- configuration, or at neither.
use iroh_proxy.Common.{
  ◌≡◌, refl, sym, ◌∙◌, ap, Bool, true, false, some, Result, ok, err, is_ok, ◌==◌, ◌||◌, is_empty,
  Bool-cases, inl, inr, if◌then◌else◌,
}
use iroh_proxy.Common.Dict.{keys, lookup, HasDistinctKeys}
use iroh_proxy.Common.Text.{Text, text_Keyed, trim}
use iroh_proxy.Common.Utf8.{IsText}
use iroh_proxy.Config.Rules.{Config, ConfigError}
use iroh_proxy.Config.Files.{Toml, Os, Disk, add_persistent_serve_rule}
use iroh_proxy.Config.Loading.{view, RoundTrips}
use iroh_proxy.Config.Serving.{HasServe, Adds, add_persistent_serve_rule-Adds}
use iroh_proxy.Daemon.State.{Daemon, DaemonError}
use iroh_proxy.Daemon.Service.{add_serve, del_serve}
use iroh_proxy.Daemon.Served.{
  route_of, route_to, AddsServe, add_serve-AddsServe, del_serve-add_serve,
}
use iroh_proxy.Commands.Persistent.{
  World, CommandError, required, persist_failed, after_call, after_persist, add_serve_command,
  enter_add_service,
}

module _ {EndpointId : Type 0} ⦃toml : Toml⦄ (config_path name target : Text)
    (w : World EndpointId) where
  -- The rule is in the configuration, and otherwise the same rules as before.
  abbrev pub Persisted : Disk → Type 0
  Persisted disk =
      (before : Config) × (after : Config) × (view config_path w.disk ≡ some before)
      × (view config_path disk ≡ some after)
      × HasServe name target before after

  abbrev pub Stored : Bool → Disk → Type 0
  Stored true disk = Persisted disk
  Stored false disk = disk ≡ w.disk

  -- The rollback of a failed persistence succeeded.
  abbrev pub Undone : Result CommandError (Unit {0}) → Type 0
  Undone (err (persist_failed e rollback)) = rollback ≡ ok tt
  Undone r = Unit

  pub record AddsOrNot (persistent : Bool) (r : Result CommandError (Unit {0}) × World EndpointId)
      : Type 0 where
    pub served :
        is_ok r.0 ≡ true
        → (other : Text) → IsText name
        → IsText other
        → route_of other r.1.daemon
          ≡ (if name == other then some (route_to name target) else route_of other w.daemon)
    pub stored : is_ok r.0 ≡ true → Stored persistent r.1.disk
    pub routes_stay : is_ok r.0 ≡ false → r.1.daemon.routes ≡ w.daemon.routes
    pub alpns_stay :
        is_ok r.0 ≡ false
        → w.daemon.alpns ≡ keys w.daemon.routes
        → r.1.daemon.alpns ≡ w.daemon.alpns
    pub file_stays :
        is_ok r.0 ≡ false → lookup config_path r.1.disk.files ≡ lookup config_path w.disk.files
    pub undone : Undone r.0

  -- What the rollback of the call `c` would do.
  abbrev Undoes : Result DaemonError (Unit {0}) × Daemon EndpointId → Type 0
  Undoes c =
      is_ok c.0 ≡ true
      → let q = del_serve name c.1 in
        (q.0 ≡ ok tt) × (q.1.routes ≡ w.daemon.routes) × (q.1.alpns ≡ keys w.daemon.routes)

  not_added :
      (persistent : Bool) (e : CommandError) (disk : Disk) (daemon : Daemon EndpointId)
      → lookup config_path disk.files ≡ lookup config_path w.disk.files
      → daemon.routes ≡ w.daemon.routes
      → (w.daemon.alpns ≡ keys w.daemon.routes → daemon.alpns ≡ w.daemon.alpns)
      → Undone (err e)
      → AddsOrNot persistent (err e, record { daemon = daemon; disk = disk })
  not_added persistent e disk daemon file routes alpns undone = record {
    served = λ h. cc;
    stored = λ h. cc;
    routes_stay = λ h. routes;
    alpns_stay = λ h. alpns;
    file_stays = λ h. file;
    undone = undone;
  }

  after_persist_lem :
      (daemon : Daemon EndpointId) (p : Result ConfigError (Unit {0}) × Disk)
      → AddsServe name target w.daemon (ok tt, daemon)
      → Undoes (ok tt, daemon)
      → Adds config_path name target w.disk p
      → AddsOrNot true (after_persist (del_serve name) daemon p)
  after_persist_lem daemon (ok done, disk) adds undoes stores = record {
    served = λ h. adds.served refl;
    stored = λ h. let (valid, filled, kept) = stores.added refl in kept;
    routes_stay = λ h. cc;
    alpns_stay = λ h. cc;
    file_stays = λ h. cc;
    undone = tt;
  }
  after_persist_lem daemon (err e, disk) adds undoes stores =
      let (undone, routes, alpns) = undoes refl in
      not_added true _ disk _ (stores.untouched refl) routes (λ told. alpns ∙ sym told) undone

  after_call_lem :
      (persistent : Bool) (c : Result DaemonError (Unit {0}) × Daemon EndpointId)
      → AddsServe name target w.daemon c
      → Undoes c
      → (os : Os)
      → Adds config_path name target w.disk
          (add_persistent_serve_rule os config_path name target w.disk)
      → AddsOrNot persistent (
          after_call persistent
            (del_serve name)
            (add_persistent_serve_rule os config_path name target)
            w.disk
            c)
  after_call_lem persistent (err e, daemon) adds undoes os stores =
      not_added persistent _ w.disk daemon refl (ap (λ d. d.routes) (adds.untouched refl))
        (λ told. ap (λ d. d.alpns) (adds.untouched refl)) tt
  after_call_lem true (ok done, daemon) adds undoes os stores =
      after_persist_lem daemon _ adds undoes stores
  after_call_lem false (ok done, daemon) adds undoes os stores = record {
    served = λ h. adds.served refl;
    stored = λ h. refl;
    routes_stay = λ h. cc;
    alpns_stay = λ h. cc;
    file_stays = λ h. cc;
    undone = tt;
  }

  -- If the command succeeds, the name is served by the target and every other name by what served
  -- it before, and with `-p` the configuration has the rule and otherwise the rules it had; without
  -- `-p` the disk stays as it was. If it fails, the routes and the configuration file are as they
  -- were, and so is what the endpoint was told, if that was the identifiers of the routes; the
  -- rollback of a failed persistence succeeds. The toml crate reads what it prints, the file's
  -- state can be read, and the names of the files differ.
  pub add_serve_command-AddsOrNot :
      (os : Os) (persistent : Bool)
      → RoundTrips toml
      → os.stat_fails ≡ false
      → HasDistinctKeys w.disk.files
      → AddsOrNot persistent (add_serve_command os config_path persistent name target w)
  unfolding add_serve_command
  add_serve_command-AddsOrNot os persistent trips seen known =
      after_call_lem persistent (add_serve name target w.daemon)
        (add_serve-AddsServe name target w.daemon) (del_serve-add_serve name target w.daemon) os
        (add_persistent_serve_rule-Adds os config_path name target w.disk trips seen known)

-- Enter in the dialog that adds a service does what the command does with the trimmed texts: if it
-- succeeds, the name is served by the target, and persisted if that was asked for, and if it fails,
-- routes and configuration file are as they were. The toml crate reads what it prints, the file's
-- state can be read, and the names of the files differ.
pub enter_add_service-AddsOrNot :
    {EndpointId : Type 0} ⦃toml : Toml⦄ (config_path name target : Text) (w : World EndpointId)
    (os : Os) (persist : Bool)
    → RoundTrips toml
    → os.stat_fails ≡ false
    → HasDistinctKeys w.disk.files
    → AddsOrNot config_path
        (trim name)
        (trim target)
        w
        persist
        (enter_add_service os config_path persist name target w)
unfolding enter_add_service add_serve_command
enter_add_service-AddsOrNot config_path name target w os persist trips seen known =
    elim (Bool-cases (is_empty (trim name) || is_empty (trim target))) [
      | inl blank ↦ rw blank (
          not_added config_path (trim name) (trim target) w persist required w.disk w.daemon refl
            refl (λ told. refl) tt)
      | inr filled ↦ rw filled (
          add_serve_command-AddsOrNot config_path (trim name) (trim target) w os persist trips seen
            known)
    ]

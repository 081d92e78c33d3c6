-- ===== src/Config/Loading.antt =====
-- src/config.rs: reading back what was written. The toml crate is taken to read what it prints.
use iroh_proxy.Common.{
  ◌≡◌, refl, ap, ◌∙◌, Bool, true, false, Option, none, some, Result, ok, err, arith, is_ok, bail_if,
}
use iroh_proxy.Common.Dict.{lookup, contains_key, HasDistinctKeys}
use iroh_proxy.Common.Text.{Text, text_Keyed}
use iroh_proxy.Common.Utf8.{Bytes}
use iroh_proxy.Common.State.{Action, continue, lift, ◌>>=◌}
use iroh_proxy.Config.Rules.{
  Config, ConfigError, default_config, serialize_failed, create_dir_failed,
}
use iroh_proxy.Config.Files.{
  Toml, Os, Disk, load_config_or_default, write_config, write_config_atomic, write_change, or_fail,
}
use iroh_proxy.Config.Atomic.{write_config_atomic-Replaces}

-- Reading back what `to_string_pretty` printed gives the same configuration.
abbrev pub RoundTrips : Toml → Type 0
RoundTrips toml =
    (c : Config) (raw : Bytes) → toml.to_string_pretty c ≡ some raw → toml.from_str raw ≡ some c

abbrev pub changed : Config → Option Config → Config
changed before none = before
changed before (some after) = after

module _ ⦃toml : Toml⦄ where
  -- The configuration that a file stands for; a missing file is the default.
  abbrev content : Option Bytes → Option Config
  content none = some default_config
  content (some raw) = toml.from_str raw

  abbrev pub view : Text → Disk → Option Config
  view path d = content (lookup path d.files)

  pub load-disk : (os : Os) (path : Text) (d : Disk) → (load_config_or_default os path d).1 ≡ d
  unfolding load_config_or_default contains_key
  load-disk os path d = ground arith

  -- If the file's state can be read, loading gives what the file stands for.
  pub load-view :
      (os : Os) (path : Text) (d : Disk) (c : Config)
      → os.stat_fails ≡ false
      → (load_config_or_default os path d).0 ≡ ok c
      → view path d ≡ some c
  unfolding load_config_or_default contains_key
  load-view os path d c h e = ground arith

  -- Without faults, loading gives what the file stands for.
  pub view-load :
      (os : Os) (path : Text) (d : Disk) (c : Config)
      → os.stat_fails ≡ false
      → os.read_fails ≡ false
      → view path d ≡ some c
      → load_config_or_default os path d ≡ (ok c, d)
  unfolding load_config_or_default contains_key
  view-load os path d c h k e = ground arith

  -- What storing a change does: it is read back on success, and on an error the file is as it was.
  pub record Stores (path : Text) (c : Config) (d : Disk) (r : Result ConfigError (Unit {0}) × Disk)
      : Type 0 where
    pub stored : is_ok r.0 ≡ true → view path r.1 ≡ some c
    pub untouched : is_ok r.0 ≡ false → lookup path r.1.files ≡ lookup path d.files
    pub distinct : HasDistinctKeys r.1.files

  pub write_config-Stores :
      (os : Os) (path : Text) (c : Config) (d : Disk)
      → RoundTrips toml
      → HasDistinctKeys d.files
      → Stores path c d (write_config os path c d)
  unfolding write_config
  write_config-Stores os path c d trips known = made os.create_dir_fails
    where
      printed :
          (raw : Option Bytes)
          → toml.to_string_pretty c ≡ raw
          → Stores path c d
              (continue (or_fail serialize_failed raw, d) (write_config_atomic os path))
      printed none q = record { stored = λ h. cc; untouched = λ h. refl; distinct = known }
      printed (some raw) q =
          let r = write_config_atomic-Replaces os path raw d known in
          record {
            stored = λ h. ap content (r.replaced h) ∙ trips c raw q;
            untouched = r.kept;
            distinct = r.distinct;
          }

      made :
          (fails : Bool)
          → Stores path c d (
              continue
                (bail_if fails create_dir_failed, d)
                (λ _.
                  lift (or_fail serialize_failed (toml.to_string_pretty c))
                  >>= write_config_atomic os path))
      made true = record { stored = λ h. cc; untouched = λ h. refl; distinct = known }
      made false = printed (toml.to_string_pretty c) refl

  -- The shape of the operations: load, compute the change, store it.
  abbrev pub update_with :
      Os → Text → (Config → Result ConfigError (Option Config)) → Action Disk ConfigError (Unit {0})
  update_with os path f = do
    config ← load_config_or_default os path
    change ← lift (f config)
    write_change os path change

  pub record Updates (path : Text) (f : Config → Result ConfigError (Option Config)) (d : Disk)
      (r : Result ConfigError (Unit {0}) × Disk) : Type 0 where
    pub updated :
        is_ok r.0 ≡ true
        → (before : Config) × (change : Option Config) × (view path d ≡ some before)
          × (f before ≡ ok change)
          × (view path r.1 ≡ some (changed before change))
    pub untouched : is_ok r.0 ≡ false → lookup path r.1.files ≡ lookup path d.files
    pub distinct : HasDistinctKeys r.1.files

  pub update_with-Updates :
      (os : Os) (path : Text) (f : Config → Result ConfigError (Option Config)) (d : Disk)
      → RoundTrips toml
      → os.stat_fails ≡ false
      → HasDistinctKeys d.files
      → Updates path f d (update_with os path f d)
  update_with-Updates os path f d trips seen known =
      loaded (load_config_or_default os path d) refl (load-disk os path d)
    where
      stored :
          (c : Config) (change : Option Config)
          → view path d ≡ some c
          → f c ≡ ok change
          → Updates path f d (write_change os path change d)
      stored c none v e = record {
        updated = λ h. (c, none, v, e, v);
        untouched = λ h. refl;
        distinct = known;
      }
      stored c (some after) v e =
          let s = write_config-Stores os path after d trips known in
          record {
            updated = λ h. (c, some after, v, e, s.stored h);
            untouched = s.untouched;
            distinct = s.distinct;
          }

      computed :
          (c : Config) (r : Result ConfigError (Option Config))
          → view path d ≡ some c
          → f c ≡ r
          → Updates path f d (continue (r, d) (write_change os path))
      computed c (ok change) v e = stored c change v e
      computed c (err x) v e = record { updated = λ h. cc; untouched = λ h. refl; distinct = known }

      loaded :
          (r : Result ConfigError Config × Disk)
          → load_config_or_default os path d ≡ r
          → r.1 ≡ d
          → Updates path f d (continue r λ c. lift (f c) >>= write_change os path)
      loaded (ok c, s) e q =
          rw q (computed c (f c) (load-view os path d c seen (ap (λ t. t.0) e)) refl)
      loaded (err x, s) e q =
          rw q (record { updated = λ h. cc; untouched = λ h. refl; distinct = known })

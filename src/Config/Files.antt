-- ===== src/Config/Files.antt =====
-- src/config.rs: reading the configuration, replacing its file, and the persistent rules. The files
-- are those of the configuration's directory, by name; a path is a file name there.
use iroh_proxy.Common.{
  ℕ, ◌+◌, ◌%◌, ◌^◌, Bool, not, ◌&&◌, ◌||◌, Option, none, some, [], ◌++◌, Result, ok, err, map_err,
  bail_if, if◌then◌else◌, ◌==◌, take, is_empty,
}
use iroh_proxy.Common.Dict.{Dict, lookup, contains_key, insert, remove}
use iroh_proxy.Common.Text.{Text, text, text_Keyed, trim}
use iroh_proxy.Common.Utf8.{Bytes}
use iroh_proxy.Common.Decimal.{decimal}
use iroh_proxy.Common.State.{Action, pure, fail, lift, ◌>>=◌, ◌>>◌}
use iroh_proxy.RemotePath.{Iroh, RemotePath, validate_service_name, parse}
use iroh_proxy.Config.Rules.{
  Config, ConfigError, default_config, read_failed, invalid_toml, serialize_failed,
  create_dir_failed, create_temp_failed, write_temp_failed, sync_temp_failed, replace_failed,
  invalid_service_name, invalid_remote_path, empty_target, empty_listen, ForwardService,
  insert_serve, insert_forward, retain_forwards,
}

-- The toml crate: `from_str` after `read_to_string`, and `to_string_pretty`.
pub record Toml : Type 0 where
  pub from_str : Bytes → Option Config
  pub to_string_pretty : Config → Option Bytes

-- The process id, and which calls of the operating system fail. A failing write may have written
-- the first bytes.
pub record Os : Type 0 where
  pub process_id : ℕ
  pub stat_fails : Bool
  pub read_fails : Bool
  pub create_dir_fails : Bool
  pub open_fails : Bool
  pub write_fails : Option ℕ
  pub sync_fails : Bool
  pub rename_fails : Bool
  pub remove_fails : Bool

-- The directory, and `TEMP_FILE_COUNTER`.
pub record Disk : Type 0 where
  pub files : Dict Text Bytes
  pub temp_counter : ℕ

abbrev pub Io : Type 0 → Type 0
Io A = Action Disk ConfigError A

abbrev pub put_file : Text → Bytes → Disk → Disk
put_file path bytes d = record d { files = insert path bytes d.files }

abbrev pub delete_file : Text → Disk → Disk
delete_file path d = record d { files = remove path d.files }

unfoldable pub temp_name : Text → ℕ → ℕ → Text
temp_name file_name process_id counter =
    text "."
    ++ (file_name
        ++ (text "." ++ (decimal process_id ++ (text "." ++ (decimal counter ++ text ".tmp")))))

abbrev pub or_fail : {A : Type 0} → ConfigError → Option A → Result ConfigError A
or_fail e none = err e
or_fail e (some a) = ok a

module _ ⦃toml : Toml⦄ (os : Os) where
  unfoldable pub temp_config_path : Text → Io Text
  temp_config_path path d =
      pure (temp_name path os.process_id d.temp_counter)
        (record d { temp_counter = (d.temp_counter + 1) % 2 ^ 64 })

  -- `OpenOptions::create_new`, `write_all`, `sync_all`.
  unfoldable pub create_new : Text → Io (Unit {0})
  create_new path d =
      if os.open_fails || contains_key path d.files
      then fail create_temp_failed d
      else pure tt (put_file path [] d)

  unfoldable pub write_all : Text → Bytes → Io (Unit {0})
  write_all path bytes d = elim os.write_fails [
    | none ↦ pure tt (put_file path bytes d)
    | some k ↦ fail write_temp_failed (put_file path (take k bytes) d)
  ]

  unfoldable pub sync_all : Io (Unit {0})
  sync_all = lift (bail_if os.sync_fails sync_temp_failed)

  -- `std::fs::rename`, which replaces the target at once.
  unfoldable pub replace_file : Text → Text → Io (Unit {0})
  replace_file from to d = elim (lookup from d.files) [
    | none ↦ fail replace_failed d
    | some bytes ↦
        if os.rename_fails
        then fail replace_failed d
        else pure tt (put_file to bytes (delete_file from d))
  ]

  unfoldable pub write_temp : Text → Text → Bytes → Io (Unit {0})
  unfolding create_new write_all sync_all replace_file
  write_temp temp_path path bytes = do
    create_new temp_path
    write_all temp_path bytes
    sync_all
    replace_file temp_path path

  -- The temporary file is removed after a failure, whose error is kept.
  abbrev pub clean_up :
      Text → Result ConfigError (Unit {0}) × Disk → Result ConfigError (Unit {0}) × Disk
  clean_up temp_path (ok done, d) = (ok done, d)
  clean_up temp_path (err e, d) = (err e, if os.remove_fails then d else delete_file temp_path d)

  unfoldable pub write_config_atomic : Text → Bytes → Io (Unit {0})
  unfolding temp_config_path write_temp
  write_config_atomic path bytes = do
    temp_path ← temp_config_path path
    λ d. clean_up temp_path (write_temp temp_path path bytes d)

  unfoldable pub load_config : Text → Io Config
  load_config path d = elim (lookup path d.files) [
    | none ↦ fail read_failed d
    | some raw ↦
        if os.read_fails
        then fail read_failed d
        else lift (or_fail invalid_toml (toml.from_str raw)) d
  ]

  -- `Path::exists` is false where the file's state cannot be read.
  unfoldable pub load_config_or_default : Text → Io Config
  unfolding load_config
  load_config_or_default path d =
      if not os.stat_fails && contains_key path d.files
      then load_config path d
      else pure default_config d

  unfoldable pub write_config : Text → Config → Io (Unit {0})
  write_config path config = do
    lift (bail_if os.create_dir_fails create_dir_failed)
    raw ← lift (or_fail serialize_failed (toml.to_string_pretty config))
    write_config_atomic path raw

  abbrev pub write_change : Text → Option Config → Io (Unit {0})
  write_change path none = pure tt
  write_change path (some config) = write_config path config

  unfoldable pub add_persistent_serve_rule : Text → Text → Text → Io (Unit {0})
  add_persistent_serve_rule path name target = do
    lift (map_err invalid_service_name (validate_service_name name))
    lift (bail_if (is_empty (trim target)) empty_target)
    config ← load_config_or_default path
    change ← lift (insert_serve name target config)
    write_change path change

  unfoldable pub add_persistent_forward_rule :
      (EndpointId : Type 0) ⦃iroh : Iroh EndpointId⦄ → Text → Text → Text → ℕ → Io (Unit {0})
  add_persistent_forward_rule EndpointId path listen remote timeout_secs = do
    lift (bail_if (is_empty (trim listen)) empty_listen)
    parsed ← lift (map_err {A = RemotePath EndpointId} invalid_remote_path (parse remote))
    config ← load_config_or_default path
    change ← lift (insert_forward listen remote timeout_secs config)
    write_change path change

  abbrev pub write_removal : Text → Option Config → Io Bool
  write_removal path none = pure Bool.false
  write_removal path (some config) = do write_config path config; pure Bool.true

  unfoldable pub remove_persistent_forward_rule_inner : Text → (ForwardService → Bool) → Io Bool
  remove_persistent_forward_rule_inner path matches = do
    config ← load_config_or_default path
    write_removal path (retain_forwards matches config)

  unfoldable pub remove_persistent_forward_rule : Text → Text → Text → Io Bool
  unfolding remove_persistent_forward_rule_inner
  remove_persistent_forward_rule path listen remote =
      remove_persistent_forward_rule_inner path
        λ entry. entry.listen == listen && entry.remote == remote

  unfoldable pub remove_persistent_forward_rule_by_listen : Text → Text → Io Bool
  unfolding remove_persistent_forward_rule_inner
  remove_persistent_forward_rule_by_listen path listen =
      remove_persistent_forward_rule_inner path λ entry. entry.listen == listen

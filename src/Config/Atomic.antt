-- ===== src/Config/Atomic.antt =====
-- src/config.rs: what `write_config_atomic` leaves in the directory, whichever call fails.
use iroh_proxy.Common.{
  ℕ, ◌+◌, ◌%◌, ◌^◌, ◌≡◌, refl, sym, ap, ◌≢◌, inl, inr, true, false, none, some, [], ◌++◌, Result,
  ok, err, arith, is_ok, length, length-append, take, Option-cases, if◌then◌else◌, ◌==◌,
}
use iroh_proxy.Common.Dict.{
  Dict, lookup, insert, remove, HasDistinctKeys, lookup-insert, lookup-insert_self, same_refl,
  lookup-remove, insert-HasDistinctKeys, remove-HasDistinctKeys,
}
use iroh_proxy.Common.Text.{Text, text, text_Keyed, text_eq_iff}
use iroh_proxy.Common.Utf8.{Bytes}
use iroh_proxy.Common.Decimal.{decimal}
use iroh_proxy.Config.Rules.{
  ConfigError, create_temp_failed, write_temp_failed, sync_temp_failed, replace_failed,
}
use iroh_proxy.Config.Files.{
  Toml, Os, Disk, delete_file, temp_name, write_temp, write_all, write_config_atomic, clean_up,
}

-- The temporary file is never the file itself.
temp_name-ne : (name : Text) (pid counter : ℕ) → temp_name name pid counter ≢ name
unfolding temp_name
temp_name-ne name pid counter h = omega (
  arith,
  ap length h,
  length-append name (text "." ++ (decimal pid ++ (text "." ++ (decimal counter ++ text ".tmp")))),
)

-- What a call leaves behind: the whole new contents or the old ones, the other files as they were,
-- and no temporary file, unless it cannot be removed.
pub record Replaces (os : Os) (path temp : Text) (bytes : Bytes) (before : Dict Text Bytes)
    (r : Result ConfigError (Unit {0}) × Disk) : Type 0 where
  pub replaced : is_ok r.0 ≡ true → lookup path r.1.files ≡ some bytes
  pub kept : is_ok r.0 ≡ false → lookup path r.1.files ≡ lookup path before
  pub others :
      (other : Text) → other ≢ path → other ≢ temp → lookup other r.1.files ≡ lookup other before
  pub cleaned : os.remove_fails ≡ false → lookup temp r.1.files ≡ none
  pub distinct : HasDistinctKeys r.1.files

module _ (path temp : Text) (apart : temp ≢ path) (m : Dict Text Bytes)
    (distinct : HasDistinctKeys m) where
  -- The directory while the temporary file is written, and after it was renamed.
  abbrev writing : Bytes → Dict Text Bytes
  writing bytes = insert temp bytes (insert temp [] m)

  abbrev renamed : Bytes → Dict Text Bytes
  renamed bytes = insert path bytes (remove temp (writing bytes))

  writing-distinct : (bytes : Bytes) → HasDistinctKeys (writing bytes)
  writing-distinct bytes =
      insert-HasDistinctKeys temp bytes _ (insert-HasDistinctKeys temp [] m distinct)

  lookup-writing :
      (bytes : Bytes) (j : Text)
      → lookup j (writing bytes) ≡ (if temp == j then some bytes else lookup j m)
  lookup-writing bytes j =
      ground (arith, lookup-insert temp j bytes (insert temp [] m), lookup-insert temp j [] m)

  lookup-removed :
      (bytes : Bytes) (j : Text)
      → lookup j (remove temp (writing bytes)) ≡ (if temp == j then none else lookup j m)
  lookup-removed bytes j =
      ground (
        arith,
        lookup-remove temp j (writing bytes) (writing-distinct bytes),
        lookup-writing bytes j,
      )

  lookup-renamed :
      (bytes : Bytes) (j : Text)
      → lookup j (renamed bytes)
        ≡ (if path == j then some bytes else if temp == j then none else lookup j m)
  lookup-renamed bytes j =
      ground
        (arith, lookup-insert path j bytes (remove temp (writing bytes)), lookup-removed bytes j)

module _ ⦃toml : Toml⦄ (os : Os) (path temp : Text) (apart : temp ≢ path) (bytes : Bytes) (d : Disk)
    (distinct : HasDistinctKeys d.files) where
  abbrev outcome : Result ConfigError (Unit {0}) × Disk
  outcome = clean_up os temp (write_temp os temp path bytes d)

  abbrev left : ConfigError → Dict Text Bytes → Result ConfigError (Unit {0}) × Disk
  left e files = (
    err e,
    if os.remove_fails
        then record d { files = files }
        else delete_file temp (record d { files = files }),
  )

  lookup-temp : (b : Bytes) → lookup temp (writing path temp apart d.files distinct b) ≡ some b
  lookup-temp b = lookup-insert_self temp b _

  outcome_cases :
      (P : Result ConfigError (Unit {0}) × Disk → Type 0)
      → P (left create_temp_failed d.files)
      → ((e : ConfigError) (b : Bytes) → P (left e (writing path temp apart d.files distinct b)))
      → P (ok tt, record d { files = renamed path temp apart d.files distinct bytes })
      → P outcome
  unfolding write_temp
  outcome_cases P unopened partial done = elim (Option-cases os.write_fails) [
    | inl e ↦
        rw (e, write_temp, write_all)
          (ground (
            arith,
            lookup-temp bytes,
            partial sync_temp_failed bytes,
            partial replace_failed bytes,
          ))
    | inr (k, e) ↦
        rw (e, write_temp, write_all) (ground (arith, partial write_temp_failed (take k bytes)))
  ]

  left-Replaces :
      (e : ConfigError) (files : Dict Text Bytes)
      → HasDistinctKeys files
      → ((j : Text) → j ≢ temp → lookup j files ≡ lookup j d.files)
      → Replaces os path temp bytes d.files (left e files)
  left-Replaces e files known same = record {
    replaced = λ h. ground arith;
    kept = λ h. left_lookup path (λ q. apart (sym q));
    others = λ other p q. left_lookup other q;
    cleaned = λ h. rw h (rw (lookup-remove temp temp files known, same_refl temp));
    distinct = ground (arith, remove-HasDistinctKeys temp files known);
  }
    where
      left_lookup : (j : Text) → j ≢ temp → lookup j (left e files).1.files ≡ lookup j d.files
      left_lookup j q =
          ground (arith, same j q, lookup-remove temp j files known, text_eq_iff temp j)

  done-Replaces :
      Replaces os path temp bytes d.files
        (ok tt, record d { files = renamed path temp apart d.files distinct bytes })
  done-Replaces = record {
    replaced = λ h. lookup-insert_self path bytes _;
    kept = λ h. cc;
    others = λ other p q. ground (
      arith,
      lookup-renamed path temp apart d.files distinct bytes other,
      text_eq_iff path other,
      text_eq_iff temp other,
    );
    cleaned = λ h. ground (
      arith,
      lookup-renamed path temp apart d.files distinct bytes temp,
      text_eq_iff path temp,
      text_eq_iff temp temp,
    );
    distinct =
        insert-HasDistinctKeys path bytes _
          (remove-HasDistinctKeys temp _ (writing-distinct path temp apart d.files distinct bytes));
  }

  outcome-Replaces : Replaces os path temp bytes d.files outcome
  outcome-Replaces =
      outcome_cases (Replaces os path temp bytes d.files)
        (left-Replaces create_temp_failed d.files distinct (λ j q. refl))
        (λ e b. left-Replaces e _ (writing-distinct path temp apart d.files distinct b) λ j q.
          ground (arith, lookup-writing path temp apart d.files distinct b j, text_eq_iff temp j))
        done-Replaces

-- Whichever call fails: on success the file holds exactly the new bytes, and on an error exactly what
-- it held before; all other files keep their contents; and the temporary file is gone, unless its
-- removal fails. The files of the directory have different names.
pub write_config_atomic-Replaces :
    ⦃toml : Toml⦄ (os : Os) (path : Text) (bytes : Bytes) (d : Disk)
    → HasDistinctKeys d.files
    → Replaces os path
        (temp_name path os.process_id d.temp_counter)
        bytes
        d.files
        (write_config_atomic os path bytes d)
unfolding write_config_atomic
write_config_atomic-Replaces os path bytes d distinct =
    outcome-Replaces os path (temp_name path os.process_id d.temp_counter)
      (temp_name-ne path os.process_id d.temp_counter) bytes
      (record d { temp_counter = (d.temp_counter + 1) % 2 ^ 64 }) distinct

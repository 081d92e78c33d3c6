-- ===== src/Keys.antt =====
-- src/keys.rs: the secret key's file. The state is that of one path; a key file's directory and the
-- choice of the default path are the operating system's.
use iroh_proxy.Common.{
  ℕ, zero, suc, ◌+◌, ◌*◌, ◌%◌, ◌≤◌, ◌≡◌, ◌≢◌, Bool, true, false, Option, none, some, [], Result, ok,
  err, bail_if, if◌then◌else◌, nat_eq, take, is_empty, is_some,
}
use iroh_proxy.Common.State.{Action, pure, fail, lift, ◌>>=◌, ◌>>◌}
use iroh_proxy.Common.Utf8.{Bytes}
pub mod Private
pub mod Stable
pub mod Locking
pub mod Samples
mod Tests

-- `SecretKey` of the iroh crate: `try_from` a slice, and `to_bytes`.
pub record Secret (Key : Type 0) : Type 0 where
  pub try_from : Bytes → Option Key
  pub to_bytes : Key → Bytes

-- The key's file and its mode bits, and whether some server holds its lock.
pub record KeyFile : Type 0 where
  pub bytes : Bytes
  pub mode : ℕ

pub record KeyPath : Type 0 where
  pub file : Option KeyFile
  pub locked : Bool

abbrev pub at_path : Option KeyFile → Bool → KeyPath
at_path file locked = record { file = file; locked = locked }

-- Which calls fail, and the mode that a new file gets: 0o600 less the bits of the umask. A failing
-- write may have written the first bytes.
pub record KeyOs : Type 0 where
  pub create_mode : ℕ
  pub create_dir_fails : Bool
  pub read_fails : Bool
  pub open_fails : Bool
  pub metadata_fails : Bool
  pub set_permissions_fails : Bool
  pub write_fails : Option ℕ
  pub sync_fails : Bool
  pub seek_fails : Bool
  pub set_len_fails : Bool

pub data KeyError : Type 0 where
  create_dir_failed read_failed invalid_key create_failed write_failed sync_failed : KeyError
  inspect_failed restrict_failed seek_failed truncate_failed open_failed lock_failed : KeyError

abbrev pub KeyIo : Type 0 → Type 0
KeyIo A = Action KeyPath KeyError A

-- 0o600, and `& 0o777`.
abbrev pub owner_only : ℕ
owner_only = 384

abbrev pub permission_bits : ℕ → ℕ
permission_bits mode = mode % 512

abbrev pub or_invalid : {A : Type 0} → Option A → Result KeyError A
or_invalid none = err invalid_key
or_invalid (some key) = ok key

abbrev pub put_file : KeyFile → KeyPath → KeyPath
put_file file p = record p { file = some file }

-- Changes of a file that is there.
abbrev pub update_file : (KeyFile → KeyFile) → Option KeyFile → Option KeyFile
update_file f none = none
update_file f (some file) = some (f file)

abbrev pub set_bytes : Bytes → KeyPath → KeyPath
set_bytes bytes p = record p { file = update_file (λ f. record f { bytes = bytes }) p.file }

abbrev pub bytes_of : Option KeyFile → Bytes
bytes_of none = []
bytes_of (some file) = file.bytes

-- What one round of `load_or_create_secret_key` comes to.
pub data Round (Key : Type 0) : Type 0 where
  done : Result KeyError Key × KeyPath → Round Key
  again : KeyPath → Round Key

module _ (os : KeyOs) where
  abbrev pub restrict_file : Option KeyFile → KeyIo (Unit {0})
  restrict_file none p = fail inspect_failed p
  restrict_file (some file) p =
      if os.metadata_fails
      then fail inspect_failed p
      else if nat_eq (permission_bits file.mode) owner_only
      then pure tt p
      else if os.set_permissions_fails
      then fail restrict_failed p
      else pure tt (put_file (record file { mode = owner_only }) p)

  unfoldable pub restrict_secret_key_permissions : KeyIo (Unit {0})
  restrict_secret_key_permissions p = restrict_file p.file p

  -- `write_all`.
  abbrev pub write_bytes : Bytes → Option ℕ → KeyIo (Unit {0})
  write_bytes bytes none p = pure tt (set_bytes bytes p)
  write_bytes bytes (some k) p = fail write_failed (set_bytes (take k bytes) p)

  unfoldable pub write_all : Bytes → KeyIo (Unit {0})
  write_all bytes = write_bytes bytes os.write_fails

  module _ {Key : Type 0} ⦃secret : Secret Key⦄ where
    -- The key of a file that was read.
    unfoldable pub load_existing : Bytes → KeyIo Key
    unfolding restrict_secret_key_permissions
    load_existing raw = do restrict_secret_key_permissions; lift (or_invalid (secret.try_from raw))

    -- The rest of the call, once the new file is open.
    unfoldable pub store_new : Key → KeyIo Key
    unfolding write_all restrict_secret_key_permissions
    store_new key = do
      write_all (secret.to_bytes key)
      lift (bail_if os.sync_fails sync_failed)
      restrict_secret_key_permissions
      pure key

    -- `open_secret_key_for_create`, which is refused if the file is there.
    abbrev pub create_new : Key → KeyPath → Round Key
    create_new key p =
        if is_some p.file
        then again p
        else if os.open_fails
        then done (err create_failed, p)
        else done (store_new key (put_file (record { bytes = []; mode = os.create_mode }) p))

    abbrev pub after_read : Key → (KeyPath → KeyPath) → Option KeyFile → KeyPath → Round Key
    after_read key others none p = create_new key (others p)
    after_read key others (some file) p = done (load_existing file.bytes p)

    -- `others` is what other processes do between the read and the creation. From there to its end
    -- the round is one step.
    unfoldable pub load_round : Key → (KeyPath → KeyPath) → KeyPath → Round Key
    unfolding load_existing store_new
    load_round key others p =
        if os.create_dir_fails
        then done (err create_dir_failed, p)
        else if os.read_fails
        then done (err read_failed, p)
        else after_read key others p.file p

    -- The recursion, on fuel; `none` means that it did not end within so many rounds. Other processes
    -- act before the read of each round, too.
    unfoldable pub load_or_create_secret_key :
        ℕ → Key → (ℕ → KeyPath → KeyPath) → KeyPath → Option (Result KeyError Key × KeyPath)
    unfolding load_round
    load_or_create_secret_key zero key others p = none
    load_or_create_secret_key (suc rounds) key others p =
        elim (load_round key (others (2 * rounds)) (others (2 * rounds + 1) p)) [
          | done r ↦ some r
          | again q ↦ load_or_create_secret_key rounds key others q
        ]

    -- The match on what was read from the locked file.
    unfoldable pub load_locked : Key → Bytes → KeyIo Key
    unfolding restrict_secret_key_permissions write_all
    load_locked key raw =
        if is_empty raw
        then (do
          restrict_secret_key_permissions
          lift (bail_if os.set_len_fails truncate_failed)
          lift (bail_if os.seek_fails seek_failed)
          write_all (secret.to_bytes key)
          lift (bail_if os.sync_fails sync_failed)
          pure key)
        else (do restrict_secret_key_permissions; lift (or_invalid (secret.try_from raw)))

    unfoldable pub load_or_create_secret_key_from_file : Key → KeyIo Key
    unfolding load_locked
    load_or_create_secret_key_from_file key = do
      lift (bail_if os.seek_fails seek_failed)
      lift (bail_if os.read_fails read_failed)
      λ p. load_locked key (bytes_of p.file) p

  -- `OpenOptions::create(true)`.
  abbrev pub open_or_create : Option KeyFile → KeyIo (Unit {0})
  open_or_create none p = pure tt (put_file (record { bytes = []; mode = os.create_mode }) p)
  open_or_create (some file) p = pure tt p

  -- `try_lock`.
  abbrev pub try_lock : KeyIo (Unit {0})
  try_lock p = if p.locked then fail lock_failed p else pure tt (record p { locked = true })

  -- A lock is released when its file is dropped, as on an error after it was taken.
  abbrev pub unlock_on_error :
      {A : Type 0} → Result KeyError A × KeyPath → Result KeyError A × KeyPath
  unlock_on_error (ok a, p) = (ok a, p)
  unlock_on_error (err e, p) = (err e, record p { locked = false })

  unfoldable pub lock_serve_key_file : KeyIo (Unit {0})
  unfolding restrict_secret_key_permissions
  lock_serve_key_file = do
    lift (bail_if os.create_dir_fails create_dir_failed)
    lift (bail_if os.open_fails open_failed)
    λ p. open_or_create p.file p
    try_lock
    λ p. unlock_on_error (restrict_secret_key_permissions p)

  module _ {Key : Type 0} ⦃secret : Secret Key⦄ where
    unfoldable pub load_or_create_serve_key_and_lock : Key → KeyIo Key
    unfolding lock_serve_key_file load_or_create_secret_key_from_file
    load_or_create_serve_key_and_lock key = do
      lock_serve_key_file
      λ p. unlock_on_error (load_or_create_secret_key_from_file key p)

    -- Without a key file the key is new, and nothing is stored.
    unfoldable pub load_or_create_forward_key :
        Bool → ℕ → Key → (ℕ → KeyPath → KeyPath) → KeyPath → Option (Result KeyError Key × KeyPath)
    unfolding load_or_create_secret_key
    load_or_create_forward_key true rounds key others p =
        load_or_create_secret_key rounds key others p
    load_or_create_forward_key false rounds key others p = some (ok key, p)

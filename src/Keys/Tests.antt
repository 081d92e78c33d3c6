-- ===== src/Keys/Tests.antt =====
-- Runs of src/keys.rs with keys of one byte, and the theorems at concrete inputs.
use iroh_proxy.Common.{
  ℕ, nat_eq, if◌then◌else◌, ◌≡◌, refl, true, false, Option, none, some, [], ◌∷◌, ok, err, is_some,
}
use iroh_proxy.Keys.{
  KeyFile, KeyPath, at_path, lock_failed, load_or_create_secret_key,
  load_or_create_serve_key_and_lock, load_or_create_forward_key, invalid_key, load_round,
  load_existing, store_new, restrict_secret_key_permissions, write_all, load_locked,
  load_or_create_secret_key_from_file, lock_serve_key_file,
}
use iroh_proxy.Keys.Samples.{byte_key, byte_key-ReadsBack, byte_key-none, sound}
use iroh_proxy.Keys.Private.{LoadsFrom, load_or_create_secret_key-LoadsFrom}
use iroh_proxy.Keys.Stable.{
  alone, load_or_create_secret_key-ends, load_or_create_secret_key-reloads,
}
use iroh_proxy.Keys.Locking.{Serves, load_or_create_serve_key_and_lock-Serves}

abbrev shared : Option KeyFile
shared = some (record { bytes = 7 ∷ []; mode = 420 })

abbrev stored_9 : KeyPath
stored_9 = at_path (some (record { bytes = 9 ∷ []; mode = 384 })) false

-- Another process that writes the key 7 when it finds no file.
abbrev writes_7 : Option KeyFile → Option KeyFile
writes_7 none = shared
writes_7 (some file) = some file

abbrev rival : ℕ → KeyPath → KeyPath
rival i p = at_path (writes_7 p.file) p.locked

-- The file appears after the first read.
abbrev between : ℕ → KeyPath → KeyPath
between i p = if nat_eq i 2 then rival i p else p

key_runs : Unit {0}
unfolding load_or_create_secret_key load_round load_existing store_new
    restrict_secret_key_permissions write_all load_locked load_or_create_secret_key_from_file
    lock_serve_key_file load_or_create_serve_key_and_lock load_or_create_forward_key
key_runs = tt

key_tests :
    (load_or_create_secret_key sound {Key = ℕ} 1 9 alone (at_path none false)
      ≡ some (ok 9, stored_9))
    × (load_or_create_secret_key sound {Key = ℕ} 1 9 alone (at_path shared false)
        ≡ some (ok 7, at_path (some (record { bytes = 7 ∷ []; mode = 384 })) false))
    × (load_or_create_secret_key sound {Key = ℕ} 1 9 alone
          (at_path (some (record { bytes = []; mode = 384 })) false)
        ≡ some (err invalid_key, at_path (some (record { bytes = []; mode = 384 })) false))
    × (load_or_create_secret_key sound {Key = ℕ} 2 9 between (at_path none false)
        ≡ some (ok 7, at_path (some (record { bytes = 7 ∷ []; mode = 384 })) false))
    × ((load_or_create_serve_key_and_lock sound {Key = ℕ} 9 (at_path shared true)).0
        ≡ err lock_failed)
    × (load_or_create_serve_key_and_lock sound {Key = ℕ} 9
          (at_path (some (record { bytes = []; mode = 420 })) false)
        ≡ (ok 9, at_path (some (record { bytes = 9 ∷ []; mode = 384 })) true))
    × (load_or_create_forward_key sound {Key = ℕ} false 1 9 alone (at_path shared false)
        ≡ some (ok 9, at_path shared false))
unfolding key_runs
key_tests = (refl, refl, refl, refl, refl, refl, refl)

load_or_create_secret_key-LoadsFrom_example :
    LoadsFrom {Key = ℕ} sound rival
      (at_path none false)
      (load_or_create_secret_key sound {Key = ℕ} 2 9 rival (at_path none false))
load_or_create_secret_key-LoadsFrom_example =
    load_or_create_secret_key-LoadsFrom sound byte_key-ReadsBack refl 2 9 rival (at_path none false)

rival_keeps : (i : ℕ) (p : KeyPath) → is_some p.file ≡ true → is_some (rival i p).file ≡ true
rival_keeps i p h = go p.file
  where
    go : (file : Option KeyFile) → is_some (writes_7 file) ≡ true
    go none = refl
    go (some file) = refl

load_or_create_secret_key-ends_example :
    is_some (load_or_create_secret_key sound {Key = ℕ} 2 9 rival (at_path none false)) ≡ true
load_or_create_secret_key-ends_example =
    load_or_create_secret_key-ends sound 0 9 rival (at_path none false) rival_keeps

load_or_create_secret_key-reloads_example :
    (load_or_create_secret_key sound {Key = ℕ} 1 5 alone stored_9 ≡ some (ok 9, stored_9))
    × (load_or_create_serve_key_and_lock sound {Key = ℕ} 5 stored_9
        ≡ (ok 9, at_path stored_9.file true))
load_or_create_secret_key-reloads_example =
    load_or_create_secret_key-reloads sound sound byte_key-ReadsBack byte_key-none refl
      (refl, refl, refl, refl, refl) 1 9 alone (at_path none false) 9 stored_9 key_tests.0 0 5

load_or_create_serve_key_and_lock-Serves_example :
    Serves {Key = ℕ}
      (at_path shared true)
      (load_or_create_serve_key_and_lock sound {Key = ℕ} 9 (at_path shared true))
load_or_create_serve_key_and_lock-Serves_example =
    load_or_create_serve_key_and_lock-Serves sound byte_key-ReadsBack refl 9 (at_path shared true)

-- ===== src/Keys/Locking.antt =====
-- src/keys.rs: the server's key file, which its lock guards.
use iroh_proxy.Common.{◌≡◌, Bool, true, false, Option, none, some, Result, arith, is_ok, is_some}
use iroh_proxy.Keys.{
  at_path, Secret, KeyFile, KeyPath, KeyOs, KeyError, load_or_create_serve_key_and_lock,
}
use iroh_proxy.Keys.Private.{ReadsBack, IsPrivateMode, Guarded, Stored}

module _ {Key : Type 0} ⦃secret : Secret Key⦄ where
  pub record Serves (before : KeyPath) (r : Result KeyError Key × KeyPath) : Type 0 where
    pub stored : Stored r
    pub guarded : Guarded before.file r.1.file
    pub held : is_ok r.0 ≡ true → (r.1.locked ≡ true) × (before.locked ≡ false)
    pub released : is_ok r.0 ≡ false → r.1.locked ≡ before.locked
    pub left_alone : before.locked ≡ true → is_some before.file ≡ true → r.1.file ≡ before.file

  module _ (os : KeyOs) (law : ReadsBack secret) (private : IsPrivateMode os.create_mode)
      (key : Key) where
    serve-Guarded :
        (file : Option KeyFile) (locked : Bool)
        → Guarded file (load_or_create_serve_key_and_lock os key (at_path file locked)).1.file
    unfolding load_or_create_serve_key_and_lock
    serve-Guarded none locked = ground (arith, law key)
    serve-Guarded (some file) locked = ground (arith, law key)

    serve-Stored :
        (file : Option KeyFile) (locked : Bool)
        → Stored (load_or_create_serve_key_and_lock os key (at_path file locked))
    unfolding load_or_create_serve_key_and_lock
    serve-Stored none locked = ground (arith, law key)
    serve-Stored (some file) locked = ground (arith, law key)

    serve_held :
        (file : Option KeyFile) (locked : Bool)
        → let r = load_or_create_serve_key_and_lock os key (at_path file locked) in
          is_ok r.0 ≡ true → (r.1.locked ≡ true) × (locked ≡ false)
    unfolding load_or_create_serve_key_and_lock
    serve_held none locked = ground arith
    serve_held (some file) locked = ground arith

    serve_released :
        (file : Option KeyFile) (locked : Bool)
        → let r = load_or_create_serve_key_and_lock os key (at_path file locked) in
          is_ok r.0 ≡ false → r.1.locked ≡ locked
    unfolding load_or_create_serve_key_and_lock
    serve_released none locked = ground arith
    serve_released (some file) locked = ground arith

    serve_left_alone :
        (file : KeyFile)
        → (load_or_create_serve_key_and_lock os key (at_path (some file) true)).1.file ≡ some file
    unfolding load_or_create_serve_key_and_lock
    serve_left_alone file = ground arith

    -- A call takes the lock, which is refused while another server holds it, in which case the key's
    -- file, if there, is left alone. On a key, the file holds it, only its owner may use it, and the
    -- lock is kept; on an error the lock is as before. In all cases the file has its old bytes or is
    -- private. A key is read back from its bytes, and the umask leaves a new file to its owner.
    pub load_or_create_serve_key_and_lock-Serves :
        (p : KeyPath) → Serves p (load_or_create_serve_key_and_lock os key p)
    load_or_create_serve_key_and_lock-Serves p = record {
      stored = serve-Stored p.file p.locked;
      guarded = serve-Guarded p.file p.locked;
      held = serve_held p.file p.locked;
      released = serve_released p.file p.locked;
      left_alone = left p.file p.locked;
    }
      where
        left :
            (file : Option KeyFile) (locked : Bool)
            → locked ≡ true
            → is_some file ≡ true
            → (load_or_create_serve_key_and_lock os key (at_path file locked)).1.file ≡ file
        left none locked h there = ground arith
        left (some file) locked h there = rw h (serve_left_alone file)

-- ===== src/Keys/Stable.antt =====
-- src/keys.rs: loading a key again, and how many rounds a load takes.
use iroh_proxy.Common.{
  ℕ, suc, ◌+◌, ◌*◌, ◌≡◌, refl, ap, subst, inl, inr, Bool, true, false, Option, none, some, [],
  Result, ok, arith, is_some, Bool-cases,
}
use iroh_proxy.Keys.{
  Secret, KeyFile, KeyPath, KeyOs, KeyError, Round, done, again, at_path, after_read, load_existing,
  load_locked, load_round, load_or_create_secret_key, load_or_create_serve_key_and_lock, create_new,
}
use iroh_proxy.Keys.Private.{
  ReadsBack, IsPrivateMode, StoredIn, LoadsFrom, load_or_create_secret_key-LoadsFrom,
}

-- No other process.
abbrev pub alone : ℕ → KeyPath → KeyPath
alone i p = p

-- The calls that a load of a stored key makes do not fail.
abbrev pub IsReadable : KeyOs → Type 0
IsReadable os =
    (os.create_dir_fails ≡ false)
    × (os.read_fails ≡ false)
    × (os.metadata_fails ≡ false)
    × (os.open_fails ≡ false)
    × (os.seek_fails ≡ false)

-- Other processes never remove the file.
abbrev pub Keeps : (ℕ → KeyPath → KeyPath) → Type 0
Keeps others = (i : ℕ) (p : KeyPath) → is_some p.file ≡ true → is_some (others i p).file ≡ true

clash : {P : Type 0} {b : Bool} → b ≡ false → b ≡ true → P
clash absent there = cc

module _ {Key : Type 0} ⦃secret : Secret Key⦄ where
  reload :
      (os : KeyOs)
      → IsReadable os
      → (rounds : ℕ) (stored key : Key) (file : KeyFile) (locked : Bool)
      → StoredIn stored (some file)
      → load_or_create_secret_key os (suc rounds) key alone (at_path (some file) locked)
        ≡ some (ok stored, at_path (some file) locked)
  unfolding load_or_create_secret_key load_round load_existing
  reload os (dir, read, metadata, opens, seek) rounds stored key file locked (holds, private) =
      rw (dir, read, metadata, private, holds) refl

  reserve :
      (os : KeyOs)
      → IsReadable os
      → secret.try_from [] ≡ none
      → (stored key : Key) (file : KeyFile) → StoredIn stored (some file)
      → load_or_create_serve_key_and_lock os key (at_path (some file) false)
        ≡ (ok stored, at_path (some file) true)
  unfolding load_or_create_serve_key_and_lock load_locked
  reserve os (dir, read, metadata, opens, seek) no_key stored key file (holds, private) =
      ground arith

  -- A round either ends or finds a file that was created meanwhile.
  load_round_ends :
      (os : KeyOs) (key : Key) (others : KeyPath → KeyPath) (p : KeyPath) (P : Round Key → Type 0)
      → ((r : Result KeyError Key × KeyPath) → P (done r))
      → (is_some p.file ≡ false → is_some (others p).file ≡ true → P (again (others p)))
      → P (load_round os key others p)
  unfolding load_round
  load_round_ends os key others p P ends goes = elim (Bool-cases os.create_dir_fails) [
    | inl e ↦ rw e (ends _)
    | inr e ↦ rw e (elim (Bool-cases os.read_fails) [
      | inl e' ↦ rw e' (ends _)
      | inr e' ↦ rw e' (read p.file refl)
    ])
  ]
    where
      create : (q : KeyPath) → (is_some q.file ≡ true → P (again q)) → P (create_new os key q)
      create q goes = elim (Bool-cases (is_some q.file)) [
        | inl e ↦ rw (e, create_new) (goes e)
        | inr e ↦
            rw (e, create_new)
              (elim (Bool-cases os.open_fails) [
                | inl e' ↦ rw e' (ends _)
                | inr e' ↦ rw e' (ends _)
              ])
      ]

      read : (f : Option KeyFile) → p.file ≡ f → P (after_read os key others f p)
      read none e = create (others p) (goes (ap is_some e))
      read (some file) e = ends _

  -- Two rounds are enough: if other processes never remove the file, a load ends, with a key or an
  -- error.
  pub load_or_create_secret_key-ends :
      (os : KeyOs) (rounds : ℕ) (key : Key) (others : ℕ → KeyPath → KeyPath) (p : KeyPath)
      → Keeps others
      → is_some (load_or_create_secret_key os (suc (suc rounds)) key others p) ≡ true
  unfolding load_or_create_secret_key
  load_or_create_secret_key-ends os rounds key others p keeps =
      load_round_ends os key _ _
        (λ round.
          is_some (elim round [
            | done r ↦ some r
            | again q ↦ load_or_create_secret_key os (suc rounds) key others q
          ])
          ≡ true)
        (λ r. refl)
        (λ gone there.
          load_round_ends os key _ _
            (λ round.
              is_some (elim round [
                | done r ↦ some r
                | again q ↦ load_or_create_secret_key os rounds key others q
              ])
              ≡ true)
            (λ r. refl) (λ absent there'. clash absent (keeps (2 * rounds + 1) _ there)))

  stored_by :
      (os : KeyOs)
      → ReadsBack secret
      → IsPrivateMode os.create_mode
      → (rounds : ℕ) (key : Key) (others : ℕ → KeyPath → KeyPath) (p : KeyPath)
      → (stored : Key) (q : KeyPath)
      → load_or_create_secret_key os rounds key others p ≡ some (ok stored, q)
      → StoredIn stored q.file
  stored_by os law private rounds key others p stored q e =
      let (before, seen, loads) =
        subst (LoadsFrom os others p) e
          (load_or_create_secret_key-LoadsFrom os law private rounds key others p) in
      loads.stored

  -- Once a load has returned a key, a later load that finds the file as it was left, and during
  -- which no other process acts, returns that key and not the one it would create, and so does the
  -- server's, which finds the lock free and takes it; the file stays as it is. During the first
  -- load other processes act before each round and between the read that finds no file and the
  -- creation. A key is read back from its bytes, no bytes are no key, the umask leaves a new file
  -- to its owner, and the calls of the later load do not fail.
  pub load_or_create_secret_key-reloads :
      (first os : KeyOs)
      → ReadsBack secret
      → secret.try_from [] ≡ none
      → IsPrivateMode first.create_mode
      → IsReadable os
      → (rounds : ℕ) (key : Key) (others : ℕ → KeyPath → KeyPath) (p : KeyPath)
      → (stored : Key) (q : KeyPath)
      → load_or_create_secret_key first rounds key others p ≡ some (ok stored, q)
      → (rounds' : ℕ) (key' : Key)
      → (load_or_create_secret_key os (suc rounds') key' alone q ≡ some (ok stored, q))
        × (load_or_create_serve_key_and_lock os key' (at_path q.file false)
            ≡ (ok stored, at_path q.file true))
  load_or_create_secret_key-reloads first os law no_key private readable rounds key others p stored
        q e rounds' key' =
      again_at q.file (stored_by first law private rounds key others p stored q e)
    where
      again_at :
          (file : Option KeyFile)
          → StoredIn stored file
          → (load_or_create_secret_key os (suc rounds') key' alone (at_path file q.locked)
              ≡ some (ok stored, at_path file q.locked))
            × (load_or_create_serve_key_and_lock os key' (at_path file false)
                ≡ (ok stored, at_path file true))
      again_at none there = elim there [ ]
      again_at (some file) there = (
        reload os readable rounds' stored key' file q.locked there,
        reserve os readable no_key stored key' file there,
      )

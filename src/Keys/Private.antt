-- ===== src/Keys/Private.antt =====
-- src/keys.rs: what is stored, and who may read it.
use iroh_proxy.Common.{
  ℕ, zero, suc, ◌+◌, ◌*◌, ◌%◌, ◌≡◌, refl, sym, subst, ◌⊎◌, inl, inr, Bool, true, Option, none, some,
  [], Result, ok, err, arith, is_some, Bool-cases,
}
use iroh_proxy.Keys.{
  Secret, KeyFile, KeyPath, KeyOs, KeyError, owner_only, permission_bits, Round, done, again,
  load_existing, store_new, create_new, after_read, load_round, load_or_create_secret_key,
}

-- Reading back what `to_bytes` gives.
abbrev pub ReadsBack : {Key : Type 0} → Secret Key → Type 0
ReadsBack {Key} secret = (key : Key) → secret.try_from (secret.to_bytes key) ≡ some key

-- Neither the group nor others may use a file of this mode.
abbrev pub IsPrivateMode : ℕ → Type 0
IsPrivateMode mode = mode % 64 ≡ 0

abbrev pub SameBytes : Option KeyFile → KeyFile → Type 0
SameBytes none file = ⊥
SameBytes (some before) file = file.bytes ≡ before.bytes

-- The file holds nothing new, or only its owner may use it.
abbrev pub Guarded : Option KeyFile → Option KeyFile → Type 0
Guarded before none = Unit
Guarded before (some file) = SameBytes before file ⊎ IsPrivateMode file.mode

-- States that other processes leave, from a first one.
pub data Seen (others : ℕ → KeyPath → KeyPath) : KeyPath → KeyPath → Type 0 where
  here : {p : KeyPath} → Seen others p p
  next : {p q : KeyPath} (i : ℕ) → Seen others (others i p) q → Seen others p q

Guarded-refl : (file : Option KeyFile) → Guarded file file
Guarded-refl none = tt
Guarded-refl (some file) = inl refl

module _ {Key : Type 0} ⦃secret : Secret Key⦄ where
  -- A key that is returned is the file's, which only its owner may use.
  abbrev pub StoredIn : Key → Option KeyFile → Type 0
  StoredIn key none = ⊥
  StoredIn key (some file) =
      (secret.try_from file.bytes ≡ some key) × (permission_bits file.mode ≡ owner_only)

  abbrev pub Stored : Result KeyError Key × KeyPath → Type 0
  Stored (ok key, p) = StoredIn key p.file
  Stored (err e, p) = Unit

  pub record Loads (before : KeyPath) (r : Result KeyError Key × KeyPath) : Type 0 where
    pub stored : Stored r
    pub guarded : Guarded before.file r.1.file
    pub lock_stays : r.1.locked ≡ before.locked

  module _ (os : KeyOs) where
    unchanged : (p : KeyPath) (e : KeyError) → Loads p (err e, p)
    unchanged p e = record { stored = tt; guarded = Guarded-refl p.file; lock_stays = refl }

    load_existing-Loads :
        (file : KeyFile) (locked : Bool)
        → Loads
            (record { file = some file; locked = locked })
            (load_existing os file.bytes (record { file = some file; locked = locked }))
    unfolding load_existing
    load_existing-Loads file locked = record {
      stored = ground arith;
      guarded = ground arith;
      lock_stays = ground arith;
    }

    store_new-Loads :
        ReadsBack secret
        → IsPrivateMode os.create_mode
        → (key : Key) (locked : Bool) (before : KeyPath) → before.locked ≡ locked
        → Loads before (
            store_new os key (record {
              file = some (record { bytes = []; mode = os.create_mode });
              locked = locked;
            }))
    unfolding store_new
    store_new-Loads law private key locked before h = record {
      stored = ground (arith, law key);
      guarded = ground (arith, law key);
      lock_stays = ground arith;
    }

    load_round_cases :
        ReadsBack secret
        → IsPrivateMode os.create_mode
        → (key : Key) (others : KeyPath → KeyPath) (p : KeyPath) (P : Round Key → Type 0)
        → ((r : Result KeyError Key × KeyPath) → Loads p r → P (done r))
        → ((r : Result KeyError Key × KeyPath) → Loads (others p) r → P (done r))
        → (is_some (others p).file ≡ true → P (again (others p)))
        → P (load_round os key others p)
    unfolding load_round
    load_round_cases law private key others p P found created there =
        elim (Bool-cases os.create_dir_fails) [
          | inl e ↦ rw e (found _ (unchanged p _))
          | inr e ↦ rw e (elim (Bool-cases os.read_fails) [
            | inl e' ↦ rw e' (found _ (unchanged p _))
            | inr e' ↦ rw e' (read p.file refl)
          ])
        ]
      where
        create :
            (q : KeyPath)
            → ((r : Result KeyError Key × KeyPath) → Loads q r → P (done r))
            → (is_some q.file ≡ true → P (again q))
            → P (create_new os key q)
        create q created there = elim (Bool-cases (is_some q.file)) [
          | inl e ↦ rw (e, create_new) (there e)
          | inr e ↦
              rw (e, create_new)
                (elim (Bool-cases os.open_fails) [
                  | inl e' ↦ rw e' (created _ (unchanged q _))
                  | inr e' ↦ rw e' (created _ (store_new-Loads law private key q.locked q refl))
                ])
        ]

        read : (f : Option KeyFile) → p.file ≡ f → P (after_read os key others f p)
        read none e = create (others p) created there
        read (some file) e = found _ (
            subst
              (λ f.
                Loads (record { file = f; locked = p.locked })
                  (load_existing os file.bytes (record { file = f; locked = p.locked })))
              (sym e) (load_existing-Loads file p.locked))

    -- What a call comes to, if it ends: all but the last round leave the file alone.
    abbrev pub LoadsFrom :
        (ℕ → KeyPath → KeyPath) → KeyPath → Option (Result KeyError Key × KeyPath) → Type 0
    LoadsFrom others p none = Unit
    LoadsFrom others p (some r) = (before : KeyPath) × Seen others p before × Loads before r

    LoadsFrom-next :
        (others : ℕ → KeyPath → KeyPath) (i : ℕ) (p : KeyPath)
        (o : Option (Result KeyError Key × KeyPath))
        → LoadsFrom others (others i p) o
        → LoadsFrom others p o
    LoadsFrom-next others i p none h = tt
    LoadsFrom-next others i p (some r) (before, seen, loads) = (before, next i seen, loads)

    -- Other processes act before each round and, in it, between the read that finds no file and the
    -- creation, but not while the call restricts a file that it read, or writes, syncs and restricts
    -- the one that it created. Whatever they do there: if the call returns a key, the file holds it
    -- and only its owner may use it; whether it returns a key or an error, the file is one that
    -- another process left, or holds the bytes of such a one, or only its owner may use it; and the
    -- lock stays as it was. A key is read back from its bytes, and the umask leaves a new file to its
    -- owner.
    pub load_or_create_secret_key-LoadsFrom :
        ReadsBack secret
        → IsPrivateMode os.create_mode
        → (rounds : ℕ) (key : Key) (others : ℕ → KeyPath → KeyPath) (p : KeyPath)
        → LoadsFrom others p (load_or_create_secret_key os rounds key others p)
    unfolding load_or_create_secret_key
    load_or_create_secret_key-LoadsFrom law private zero key others p = tt
    load_or_create_secret_key-LoadsFrom law private (suc rounds) key others p =
        LoadsFrom-next others (2 * rounds + 1) p _ (
          load_round_cases law private key (others (2 * rounds)) (others (2 * rounds + 1) p)
            (λ round. LoadsFrom others (others (2 * rounds + 1) p) (elim round [
              | done r ↦ some r
              | again q ↦ load_or_create_secret_key os rounds key others q
            ]))
            (λ r loads. (others (2 * rounds + 1) p, here, loads))
            (λ r loads.
              (others (2 * rounds) (others (2 * rounds + 1) p), next (2 * rounds) here, loads))
            (λ there.
              LoadsFrom-next others (2 * rounds) _ _
                (load_or_create_secret_key-LoadsFrom law private rounds key others _)))

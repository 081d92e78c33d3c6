-- ===== src/Config/Serving.antt =====
-- src/config.rs: `add_persistent_serve_rule`.
use iroh_proxy.Common.{
  ◌≡◌, refl, ap, subst, ◌∙◌, ◌≢◌, ◌⊎◌, inl, inr, Bool, true, false, Option, none, some, List, [],
  ◌∷◌, ◌++◌, Result, ok, err, arith, is_ok, if◌then◌else◌, ◌==◌, find, is_empty, map_err, bail_if,
  Bool-cases,
}
use iroh_proxy.Common.Dict.{lookup, HasDistinctKeys, same_refl}
use iroh_proxy.Common.Text.{Text, text_Keyed, text_eq_iff, trim}
use iroh_proxy.Common.State.{continue, lift, ◌>>◌}
use iroh_proxy.RemotePath.{NameError, validate_service_name}
use iroh_proxy.RemotePath.Names.{IsServiceName, validate_service_name_iff}
use iroh_proxy.Config.Rules.{
  Config, ConfigError, ServeService, serve_services, insert_serve, invalid_service_name,
  empty_target, service_exists,
}
use iroh_proxy.Config.Files.{Toml, Os, Disk, add_persistent_serve_rule}
use iroh_proxy.Config.Loading.{
  RoundTrips, view, view-load, update_with, update_with-Updates, changed,
}

abbrev rule : Text → Text → ServeService
rule name target = record { name = name; target = target }

-- The rule for a service in the configuration.
abbrev pub find_serve : Text → Config → Option ServeService
find_serve name config = find (λ entry. entry.name == name) (serve_services config.serve)

find-name :
    (name : Text) (l : List ServeService) (entry : ServeService)
    → find (λ x. x.name == name) l ≡ some entry
    → entry.name ≡ name
find-name name [] entry h = cc
find-name name (x ∷ l) entry h = ground (arith, text_eq_iff x.name name, find-name name l entry)

find-append :
    (name other target : Text) (l : List ServeService)
    → find (λ x. x.name == name) l ≡ none
    → find (λ x. x.name == other) (l ++ (rule name target ∷ []))
      ≡ (if name == other then some (rule name target) else find (λ x. x.name == other) l)
find-append name other target [] h = refl
find-append name other target (x ∷ l) h = ground (
  arith,
  text_eq_iff x.name name,
  text_eq_iff x.name other,
  text_eq_iff name other,
  find-append name other target l,
)

abbrev with_rule : Text → Text → Config → Config
with_rule name target before = record before {
  serve = some (record { services = serve_services before.serve ++ (rule name target ∷ []) });
}

-- A configuration that has the rule, and otherwise is as before.
pub record HasServe (name target : Text) (before after : Config) : Type 0 where
  pub rules :
      (other : Text)
      → find_serve other after
        ≡ (if name == other then some (rule name target) else find_serve other before)
  pub forwards : after.forward ≡ before.forward

insert_serve-HasServe :
    (name target : Text) (before : Config) (change : Option Config)
    → insert_serve name target before ≡ ok change
    → HasServe name target before (changed before change)
unfolding insert_serve
insert_serve-HasServe name target before change h =
    go (find (λ entry. entry.name == name) (serve_services before.serve)) refl
  where
    services : List ServeService
    services = serve_services before.serve

    go :
        (r : Option ServeService)
        → find (λ entry. entry.name == name) services ≡ r
        → HasServe name target before (changed before change)
    go none q =
        let e : some (with_rule name target before) ≡ change = ground arith in
        subst (λ c. HasServe name target before (changed before c)) e
          (record { rules = λ other. find-append name other target services q; forwards = refl })
    go (some existing) q =
        let same : existing.name ≡ name = find-name name services existing q in
        let e : (none ≡ change) × (existing.target ≡ target) =
          ground (arith, text_eq_iff existing.target target) in
        subst (λ c. HasServe name target before (changed before c)) e.0
          (record {
            rules = λ other. found other (Bool-cases (name == other)) existing q same e.1;
            forwards = refl;
          })
      where
        found :
            (other : Text)
            → (((name == other) ≡ true) ⊎ ((name == other) ≡ false))
            → (x : ServeService) → find (λ entry. entry.name == name) services ≡ some x
            → x.name ≡ name
            → x.target ≡ target
            → find_serve other before
              ≡ (if name == other then some (rule name target) else find_serve other before)
        found other (inl p) x q same t = rw p (
            subst (λ o. find (λ entry. entry.name == o) services ≡ some (rule name target))
              ((text_eq_iff name other).0 p)
              (q ∙ ap some (λ i. record { name = same i; target = t i })))
        found other (inr p) x q same t = rw p

insert_serve_present :
    (name target : Text) (c : Config)
    → find_serve name c ≡ some (rule name target)
    → insert_serve name target c ≡ ok none
unfolding insert_serve
insert_serve_present name target c h = ground (arith, text_eq_iff target target)

insert_serve_conflict :
    (name target : Text) (c : Config) (existing : ServeService)
    → find_serve name c ≡ some existing
    → existing.target ≢ target
    → insert_serve name target c ≡ err (service_exists existing.target)
unfolding insert_serve
insert_serve_conflict name target c existing h k =
    ground (arith, text_eq_iff existing.target target)

-- What a call did.
pub record Adds ⦃toml : Toml⦄ (path name target : Text) (d : Disk)
    (r : Result ConfigError (Unit {0}) × Disk) : Type 0 where
  pub added :
      is_ok r.0 ≡ true
      → IsServiceName name
        × (trim target ≢ [])
        × ((before : Config) × (after : Config) × (view path d ≡ some before)
            × (view path r.1 ≡ some after)
            × HasServe name target before after)
  pub untouched : is_ok r.0 ≡ false → lookup path r.1.files ≡ lookup path d.files

module _ ⦃toml : Toml⦄ (os : Os) (path name target : Text) (d : Disk) where
  -- After a successful call the file stands for a configuration with the rule, and otherwise the same
  -- rules as before, and the name and target were valid; a call that fails leaves the file as it was.
  -- The toml crate reads what it prints, the file's state can be read, and the names of the files
  -- differ.
  pub add_persistent_serve_rule-Adds :
      RoundTrips toml
      → os.stat_fails ≡ false
      → HasDistinctKeys d.files
      → Adds path name target d (add_persistent_serve_rule os path name target d)
  unfolding add_persistent_serve_rule
  add_persistent_serve_rule-Adds trips seen known =
      checked (validate_service_name name) (is_empty (trim target)) refl refl
    where
      refused : (e : ConfigError) → Adds path name target d (err e, d)
      refused e = record { added = λ h. cc; untouched = λ h. refl }

      checked :
          (valid : Result NameError (Unit {0})) (empty : Bool)
          → validate_service_name name ≡ valid
          → is_empty (trim target) ≡ empty
          → Adds path name target d (
              continue
                (map_err invalid_service_name valid, d)
                (λ _.
                  lift (bail_if empty empty_target)
                  >> update_with os path (insert_serve name target)))
      checked (err e) empty p q = refused (invalid_service_name e)
      checked (ok done) true p q = refused empty_target
      checked (ok done) false p q =
          let u = update_with-Updates os path (insert_serve name target) d trips seen known in
          record {
            added = λ h.
                let (before, change, was, computed, now) = u.updated h in
                (
                  (validate_service_name_iff name).0 p,
                  λ e. ground arith,
                  (
                    before,
                    changed before change,
                    was,
                    now,
                    insert_serve-HasServe name target before change computed,
                  ),
                );
            untouched = u.untouched;
          }

  -- Adding a rule again, when it was added and nothing fails, succeeds and changes nothing on disk.
  -- The toml crate reads what it prints, and the names of the files differ.
  pub add_persistent_serve_rule_again :
      (later : Os)
      → RoundTrips toml
      → os.stat_fails ≡ false
      → later.stat_fails ≡ false
      → later.read_fails ≡ false
      → HasDistinctKeys d.files
      → is_ok (add_persistent_serve_rule os path name target d).0 ≡ true
      → let d' = (add_persistent_serve_rule os path name target d).1 in
        add_persistent_serve_rule later path name target d' ≡ (ok tt, d')
  unfolding add_persistent_serve_rule
  add_persistent_serve_rule_again later trips seen seen' read known h =
      again (add_persistent_serve_rule os path name target d).1
        ((add_persistent_serve_rule-Adds trips seen known).added h)
    where
      again :
          (d' : Disk)
          → IsServiceName name
            × (trim target ≢ [])
            × ((before : Config) × (after : Config) × (view path d ≡ some before)
                × (view path d' ≡ some after)
                × HasServe name target before after)
          → add_persistent_serve_rule later path name target d' ≡ (ok tt, d')
      again d' (valid, filled, (before, after, was, now, has)) =
          let e = (validate_service_name_iff name).1 valid in
          let b : is_empty (trim target) ≡ false = ground arith in
          let l = view-load later path d' after seen' read now in
          let i : insert_serve name target after ≡ ok none =
            insert_serve_present name target after (has.rules name ∙ rw (same_refl name)) in
          simp (e, b, l, i)

-- ===== src/Config/Forwarding.antt =====
-- src/config.rs: adding and removing persistent forward rules.
use iroh_proxy.Common.{
  ℕ, ◌<◌, ◌≡◌, refl, sym, ap, subst, ◌∙◌, ◌≢◌, inl, inr, Bool, true, false, not, Option, none, some,
  List, [], ◌∷◌, ◌++◌, Result, ok, err, arith, is_ok, ◌==◌, find, any, retain, length,
  length-retain-le, Bool-cases,
}
use iroh_proxy.Common.Dict.{lookup, HasDistinctKeys}
use iroh_proxy.Common.Text.{Text, text_Keyed, text_eq_iff}
use iroh_proxy.Common.State.{continue}
use iroh_proxy.Config.Rules.{
  Config, ConfigError, ForwardService, ForwardSection, forward_services, insert_forward,
  retain_forwards, section_of,
}
use iroh_proxy.Config.Files.{
  Toml, Os, Disk, remove_persistent_forward_rule_inner, load_config_or_default, write_config,
  write_removal,
}
use iroh_proxy.Config.Loading.{RoundTrips, view, load-disk, load-view, Stores, write_config-Stores}

-- The entries that are left when the matching ones are removed.
abbrev rest : (ForwardService → Bool) → List ForwardService → List ForwardService
rest matches = retain (λ entry. not (matches entry))

retain-none :
    (matches : ForwardService → Bool) (l : List ForwardService)
    → any matches l ≡ false
    → rest matches l ≡ l
retain-none matches [] h = refl
retain-none matches (x ∷ l) h = ground (arith, retain-none matches l)

retain-some :
    (matches : ForwardService → Bool) (l : List ForwardService)
    → any matches l ≡ true
    → length (rest matches l) < length l
retain-some matches [] h = cc
retain-some matches (x ∷ l) h =
    ground (arith, retain-some matches l, length-retain-le (λ entry. not (matches entry)) l)

-- Removing the matching rules from a configuration.
abbrev without : (ForwardService → Bool) → Config → Config
without matches c = record c { forward = section_of (rest matches (forward_services c.forward)) }

retain_forwards-none :
    (matches : ForwardService → Bool) (c : Config)
    → any matches (forward_services c.forward) ≡ false
    → retain_forwards matches c ≡ none
unfolding retain_forwards
retain_forwards-none matches c h = ground (arith, retain-none matches (forward_services c.forward))

retain_forwards-some :
    (matches : ForwardService → Bool) (c : Config)
    → any matches (forward_services c.forward) ≡ true
    → retain_forwards matches c ≡ some (without matches c)
unfolding retain_forwards
retain_forwards-some matches c h = ground (arith, retain-some matches (forward_services c.forward))

-- What a removal did: whether a rule matched is reported, and if so the file stands for the
-- configuration without the matching rules, in which no section is empty.
pub record Removes ⦃toml : Toml⦄ (path : Text) (matches : ForwardService → Bool) (d : Disk)
    (r : Result ConfigError Bool × Disk) : Type 0 where
  pub matched :
      r.0 ≡ ok true
      → (c : Config) × (view path d ≡ some c)
        × (any matches (forward_services c.forward) ≡ true)
        × (view path r.1 ≡ some (without matches c))
  pub unmatched :
      r.0 ≡ ok false
      → (c : Config) × (view path d ≡ some c)
        × (any matches (forward_services c.forward) ≡ false)
        × (r.1 ≡ d)
  pub untouched : is_ok r.0 ≡ false → lookup path r.1.files ≡ lookup path d.files

module _ ⦃toml : Toml⦄ (os : Os) (path : Text) (matches : ForwardService → Bool) (d : Disk) where
  -- A removal reports whether a rule matched. If one did, the file stands for the same configuration
  -- without the matching rules, and with no forward section if none is left; if none did, nothing
  -- changes; and a call that fails leaves the file as it was. The toml crate reads what it prints,
  -- the file's state can be read, and the names of the files differ.
  pub remove_persistent_forward_rule_inner-Removes :
      RoundTrips toml
      → os.stat_fails ≡ false
      → HasDistinctKeys d.files
      → Removes path matches d (remove_persistent_forward_rule_inner os path matches d)
  unfolding remove_persistent_forward_rule_inner
  remove_persistent_forward_rule_inner-Removes trips seen known =
      loaded (load_config_or_default os path d) refl (load-disk os path d)
    where
      stored :
          (c : Config)
          → view path d ≡ some c
          → any matches (forward_services c.forward) ≡ true
          → (r : Result ConfigError (Unit {0}) × Disk)
          → write_config os path (without matches c) d ≡ r
          → Removes path matches d (continue r λ _ s. (ok true, s))
      stored c v m (ok done, s) e =
          let w =
            subst (Stores path (without matches c) d) e
              (write_config-Stores os path (without matches c) d trips known) in
          record {
            matched = λ h. (c, v, m, w.stored refl);
            unmatched = λ h. cc;
            untouched = λ h. cc;
          }
      stored c v m (err x, s) e =
          let w =
            subst (Stores path (without matches c) d) e
              (write_config-Stores os path (without matches c) d trips known) in
          record { matched = λ h. cc; unmatched = λ h. cc; untouched = λ h. w.untouched refl }

      loaded :
          (r : Result ConfigError Config × Disk)
          → load_config_or_default os path d ≡ r
          → r.1 ≡ d
          → Removes path matches d
              (continue r λ c. write_removal os path (retain_forwards matches c))
      loaded (err x, s) e q =
          rw q (record { matched = λ h. cc; unmatched = λ h. cc; untouched = λ h. refl })
      loaded (ok c, s) e q =
          let v = load-view os path d c seen (ap (λ t. t.0) e) in
          rw q (elim (Bool-cases (any matches (forward_services c.forward))) [
            | inl m ↦ rw (retain_forwards-some matches c m) (stored c v m _ refl)
            | inr m ↦ rw (retain_forwards-none matches c m) (record {
              matched = λ h. cc;
              unmatched = λ h. (c, v, m, refl);
              untouched = λ h. refl;
            })
          ])

abbrev pub by_listen : Text → ForwardService → Bool
by_listen listen entry = entry.listen == listen

abbrev pub forward_rule : Text → Text → ℕ → ForwardService
forward_rule listen remote secs = record {
  listen = listen;
  remote = remote;
  close_on_request_timeout_secs = secs;
}

abbrev pub find_forward : Text → Config → Option ForwardService
find_forward listen c = find (by_listen listen) (forward_services c.forward)

find-none-any :
    (listen : Text) (l : List ForwardService)
    → find (by_listen listen) l ≡ none
    → any (by_listen listen) l ≡ false
find-none-any listen [] h = refl
find-none-any listen (x ∷ l) h = ground (arith, find-none-any listen l)

rest-append :
    (listen remote : Text) (secs : ℕ) (l : List ForwardService)
    → rest (by_listen listen) (l ++ (forward_rule listen remote secs ∷ []))
      ≡ rest (by_listen listen) l
rest-append listen remote secs [] = ground (arith, text_eq_iff listen listen)
rest-append listen remote secs (x ∷ l) = ground (arith, rest-append listen remote secs l)

any-append :
    (listen remote : Text) (secs : ℕ) (l : List ForwardService)
    → any (by_listen listen) (l ++ (forward_rule listen remote secs ∷ [])) ≡ true
any-append listen remote secs [] = ground (arith, text_eq_iff listen listen)
any-append listen remote secs (x ∷ l) = ground (arith, any-append listen remote secs l)

abbrev pub with_forward : Text → Text → ℕ → Config → Config
with_forward listen remote secs before = record before {
  forward = some (record {
    services = forward_services before.forward ++ (forward_rule listen remote secs ∷ []);
  });
}

pub insert_forward-new :
    (listen remote : Text) (secs : ℕ) (before : Config)
    → find_forward listen before ≡ none
    → insert_forward listen remote secs before ≡ ok (some (with_forward listen remote secs before))
unfolding insert_forward
insert_forward-new listen remote secs before h = ground arith

section_of-services :
    (section : Option ForwardSection)
    → section ≢ some (record { services = [] })
    → section_of (forward_services section) ≡ section
section_of-services none h = refl
section_of-services (some section) h = go section.services refl
  where
    go : (l : List ForwardService) → section.services ≡ l → section_of l ≡ some section
    go [] e = absurd (h (ap some (λ i. record { services = e i })))
    go (x ∷ l) e = ap some (λ i. record { services = sym e i })

-- A forward rule that is added to a configuration with none for its listen address, and removed by
-- that address, leaves the configuration as it was, if no empty forward section was written in it.
pub retain_forwards-insert_forward :
    (listen remote : Text) (secs : ℕ) (before after : Config)
    → find_forward listen before ≡ none
    → before.forward ≢ some (record { services = [] })
    → insert_forward listen remote secs before ≡ ok (some after)
    → retain_forwards (by_listen listen) after ≡ some before
retain_forwards-insert_forward listen remote secs before after h k e =
    subst (λ c. retain_forwards (by_listen listen) c ≡ some before)
      (cc (insert_forward-new listen remote secs before h))
      (retain_forwards-some (by_listen listen) added (any-append listen remote secs services)
        ∙ ap some (λ i. record before { forward = same i }))
  where
    services : List ForwardService
    services = forward_services before.forward

    added : Config
    added = with_forward listen remote secs before

    same : section_of (rest (by_listen listen) (forward_services added.forward)) ≡ before.forward
    same =
        ap section_of (
          rest-append listen remote secs services
          ∙ retain-none (by_listen listen) services (find-none-any listen services h))
        ∙ section_of-services before.forward k

-- ===== src/Standalone/Bindings.antt =====
-- src/main.rs and src/forward.rs: what `forward-config` serves.
use mathlib.Core.List.{append-nil, append_assoc}
use iroh_proxy.Common.{
  ◌≡◌, ◌≢◌, ◌↔◌, refl, ap, ◌∙◌, sym, subst, Bool, true, false, Option, none, some, List, [], ◌∷◌,
  ◌++◌, map, Result, ok, err, Bool-cases, inl, inr,
}
use iroh_proxy.Common.Text.{Text}
use iroh_proxy.RemotePath.{Iroh, RemotePath, PathError, parse}
use iroh_proxy.Config.Rules.{Config, ConfigError, ForwardService, ForwardSection}
use iroh_proxy.Config.Files.{Toml, Os, Disk, load_config}
use iroh_proxy.Daemon.State.{ForwardBinding}
use iroh_proxy.Standalone.{
  StandaloneError, prepare, forward_bindings, with_remote, and_binding, read_bindings,
  serve_bindings, serve_section, serve_config, forward_config_command,
}

module _ {EndpointId : Type 0} where
  -- Every address can be bound while those before it are held.
  abbrev pub Binds :
      (List Text → Text → Bool)
      → List (ForwardBinding EndpointId)
      → List (ForwardBinding EndpointId)
      → Type 0
  Binds bind prepared [] = Unit
  Binds bind prepared (binding ∷ bindings) =
      (bind (map (λ b. b.listen) prepared) binding.listen ≡ true)
      × Binds bind (prepared ++ (binding ∷ [])) bindings

  abbrev pub binding_of : ForwardService → RemotePath EndpointId → ForwardBinding EndpointId
  binding_of entry remote = record {
    listen = entry.listen;
    remote = remote;
    close_on_request_timeout = entry.close_on_request_timeout_secs;
  }

  module _ ⦃iroh : Iroh EndpointId⦄ where
    -- The bindings are those of the entries, one for each and in their order.
    abbrev pub Reads : List ForwardService → List (ForwardBinding EndpointId) → Type 0
    Reads [] [] = Unit
    Reads [] (binding ∷ bindings) = ⊥
    Reads (entry ∷ entries) [] = ⊥
    Reads (entry ∷ entries) (binding ∷ bindings) =
        ((remote : RemotePath EndpointId) × (parse entry.remote ≡ ok remote)
          × (binding ≡ binding_of entry remote))
        × Reads entries bindings

module _ {EndpointId : Type 0} (E : Type 0) (bind : List Text → Text → Bool) where
  prepare_all :
      (prepared bindings all : List (ForwardBinding EndpointId))
      → prepare {E = E} bind prepared bindings ≡ ok all
      → Binds bind prepared bindings × (all ≡ prepared ++ bindings)
  unfolding prepare
  prepare_all prepared [] all h = (tt, cc (h, append-nil prepared))
  prepare_all prepared (binding ∷ bindings) all h =
      elim (Bool-cases (bind (map (λ b. b.listen) prepared) binding.listen)) [
        | inl e ↦
            let (binds, eq) = prepare_all (prepared ++ (binding ∷ [])) bindings all (cc (h, e)) in
            ((e, binds), eq ∙ append_assoc prepared (binding ∷ []) bindings)
        | inr e ↦ absurd (cc (h, e))
      ]

  prepare-Binds :
      (prepared bindings : List (ForwardBinding EndpointId))
      → Binds bind prepared bindings
      → prepare {E = E} bind prepared bindings ≡ ok (prepared ++ bindings)
  unfolding prepare
  prepare-Binds prepared [] binds = ap ok (sym (append-nil prepared))
  prepare-Binds prepared (binding ∷ bindings) (e, binds) = rw e (
      prepare-Binds (prepared ++ (binding ∷ [])) bindings binds
      ∙ ap ok (append_assoc prepared (binding ∷ []) bindings))

  forward_bindings_iff :
      (builds : Bool) (bindings all : List (ForwardBinding EndpointId))
      → (forward_bindings {E = E} builds bind bindings ≡ ok all)
        ↔ ((builds ≡ true) × (bindings ≢ []) × Binds bind [] bindings × (all ≡ bindings))
  unfolding forward_bindings
  forward_bindings_iff builds [] all = ((λ h. cc h), λ (b, filled, binds, e). absurd (filled refl))
  forward_bindings_iff true (binding ∷ bindings) all = (
    (λ h.
        let (binds, e) = prepare_all [] (binding ∷ bindings) all h in
        (refl, (λ z. cc z), binds, e)),
    λ (b, filled, binds, e). prepare-Binds [] (binding ∷ bindings) binds ∙ ap ok (sym e),
  )
  forward_bindings_iff false (binding ∷ bindings) all = ((λ h. cc h), λ (b, filled, binds, e). cc b)

module _ {EndpointId : Type 0} (E : Type 0) ⦃iroh : Iroh EndpointId⦄ where
  read_first :
      (entry : ForwardService) (entries : List ForwardService)
      (bindings : List (ForwardBinding EndpointId)) (p : Result PathError (RemotePath EndpointId))
      (r : Result (StandaloneError E) (List (ForwardBinding EndpointId)))
      → parse entry.remote ≡ p
      → ((read : List (ForwardBinding EndpointId)) → r ≡ ok read → Reads entries read)
      → with_remote p (and_binding entry r) ≡ ok bindings
      → Reads (entry ∷ entries) bindings
  read_first entry entries bindings (err x) r e reads h = absurd (cc h)
  read_first entry entries bindings (ok remote) (err x) e reads h = absurd (cc h)
  read_first entry entries bindings (ok remote) (ok read) e reads h =
      let same : binding_of entry remote ∷ read ≡ bindings = cc h in
      subst (Reads (entry ∷ entries)) same ((remote, e, refl), reads read refl)

  read_bindings-Reads :
      (entries : List ForwardService) (bindings : List (ForwardBinding EndpointId))
      → read_bindings {E = E} entries ≡ ok bindings
      → Reads entries bindings
  unfolding read_bindings
  read_bindings-Reads [] [] h = tt
  read_bindings-Reads [] (binding ∷ bindings) h = cc h
  read_bindings-Reads (entry ∷ entries) bindings h =
      read_first entry entries bindings (parse entry.remote) (read_bindings entries) refl
        (λ read e. read_bindings-Reads entries read e) h

  Reads-read_bindings :
      (entries : List ForwardService) (bindings : List (ForwardBinding EndpointId))
      → Reads entries bindings
      → read_bindings {E = E} entries ≡ ok bindings
  unfolding read_bindings
  Reads-read_bindings [] [] h = refl
  Reads-read_bindings [] (binding ∷ bindings) h = absurd h
  Reads-read_bindings (entry ∷ entries) [] h = absurd h
  Reads-read_bindings (entry ∷ entries) (binding ∷ bindings) ((remote, p, e), rest) =
      rw (p, Reads-read_bindings entries bindings rest) (ap (λ b. ok (b ∷ bindings)) (sym e))

  -- What the command needs to serve these bindings.
  pub record Serves ⦃toml : Toml⦄ (os : Os) (builds : Bool) (bind : List Text → Text → Bool)
      (config : Text) (disk : Disk) (bindings : List (ForwardBinding EndpointId)) : Type 0 where
    pub cfg : Config
    pub section : ForwardSection
    pub loaded : (load_config os config disk).0 ≡ ok cfg
    pub in_config : cfg.forward ≡ some section
    pub reads : Reads section.services bindings
    pub filled : bindings ≢ []
    pub built : builds ≡ true
    pub binds : Binds bind [] bindings

  module _ ⦃toml : Toml⦄ (os : Os) (builds : Bool) (bind : List Text → Text → Bool) (config : Text)
      (disk : Disk) (bindings : List (ForwardBinding EndpointId)) where
    section-Serves :
        (cfg : Config) (section : Option ForwardSection)
        → (load_config os config disk).0 ≡ ok cfg
        → cfg.forward ≡ section
        → serve_section {E = E} builds bind section ≡ ok bindings
        → Serves os builds bind config disk bindings
    section-Serves cfg none l f h = absurd (cc h)
    section-Serves cfg (some section) l f h = served (read_bindings section.services) refl h
      where
        served :
            (r : Result (StandaloneError E) (List (ForwardBinding EndpointId)))
            → read_bindings {E = E} section.services ≡ r
            → serve_bindings {E = E} builds bind r ≡ ok bindings
            → Serves os builds bind config disk bindings
        served (err x) e h = absurd (cc h)
        served (ok all) e h =
            let (built, filled, binds, same) =
              (forward_bindings_iff E bind builds all bindings).0 h in
            subst (Serves os builds bind config disk) (sym same) (record {
              cfg = cfg;
              section = section;
              loaded = l;
              in_config = f;
              reads = read_bindings-Reads section.services all e;
              filled = filled;
              built = built;
              binds = binds;
            })

    config-Serves :
        (c : Result ConfigError Config)
        → (load_config os config disk).0 ≡ c
        → serve_config {E = E} builds bind c ≡ ok bindings
        → Serves os builds bind config disk bindings
    config-Serves (err x) l h = absurd (cc h)
    config-Serves (ok cfg) l h = section-Serves cfg cfg.forward l refl h

    -- The command serves bindings exactly if a key is loaded and they are those of the entries of the
    -- configuration's forward section, all with valid paths, one for each entry and in their order;
    -- there is at least one, the endpoint is built, and every address can be bound while those before
    -- it are held. Otherwise it ends with an error and serves none.
    pub forward_config_command_iff :
        (key_loads : Bool)
        → (forward_config_command {E = E} os key_loads builds bind config disk ≡ ok bindings)
          ↔ ((key_loads ≡ true) × Serves os builds bind config disk bindings)
    unfolding forward_config_command
    forward_config_command_iff true = (
      (λ h. (refl, config-Serves (load_config os config disk).0 refl h)),
      λ (k, s).
          rw (s.loaded, s.in_config, Reads-read_bindings s.section.services bindings s.reads)
            ((forward_bindings_iff E bind builds bindings bindings).1
              (s.built, s.filled, s.binds, refl)),
    )
    forward_config_command_iff false = ((λ h. cc h), λ (k, s). cc k)

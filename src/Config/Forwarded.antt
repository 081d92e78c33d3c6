-- ===== src/Config/Forwarded.antt =====
-- src/config.rs: `add_persistent_forward_rule`.
use iroh_proxy.Common.{
  ◌≡◌, refl, ap, subst, ◌∙◌, ◌⊎◌, inl, inr, Bool, true, false, Option, none, some, List, [], ◌∷◌,
  ◌++◌, Result, ok, err, arith, is_ok, if◌then◌else◌, ◌==◌, find, is_empty, map_err, bail_if,
  Bool-cases,
}
use iroh_proxy.Common.Dict.{lookup, HasDistinctKeys}
use iroh_proxy.Common.Text.{Text, text_Keyed, text_eq_iff, trim}
use iroh_proxy.Common.State.{continue}
use iroh_proxy.RemotePath.{Iroh, RemotePath, PathError, parse}
use iroh_proxy.Config.Rules.{
  Config, ConfigError, ForwardService, forward_services, insert_forward, invalid_remote_path,
  empty_listen,
}
use iroh_proxy.Config.Files.{Toml, Os, Disk, add_persistent_forward_rule}
use iroh_proxy.Config.Loading.{RoundTrips, view, update_with, update_with-Updates, changed}
use iroh_proxy.Config.Forwarding.{by_listen, with_forward, find_forward, insert_forward-new}

find-listen :
    (listen : Text) (l : List ForwardService) (entry : ForwardService)
    → find (by_listen listen) l ≡ some entry
    → entry.listen ≡ listen
find-listen listen [] entry h = cc
find-listen listen (x ∷ l) entry h =
    ground (arith, text_eq_iff x.listen listen, find-listen listen l entry)

find-append :
    (rule : ForwardService) (other : Text) (l : List ForwardService)
    → find (by_listen rule.listen) l ≡ none
    → find (by_listen other) (l ++ (rule ∷ []))
      ≡ (if rule.listen == other then some rule else find (by_listen other) l)
find-append rule other [] h = refl
find-append rule other (x ∷ l) h = ground (
  arith,
  text_eq_iff x.listen rule.listen,
  text_eq_iff x.listen other,
  text_eq_iff rule.listen other,
  find-append rule other l,
)

-- A configuration that has the rule, and otherwise is as before.
pub record HasForward (rule : ForwardService) (before after : Config) : Type 0 where
  pub rules :
      (other : Text)
      → find_forward other after
        ≡ (if rule.listen == other then some rule else find_forward other before)
  pub serves : after.serve ≡ before.serve

insert_forward-HasForward :
    (rule : ForwardService) (before : Config) (change : Option Config)
    → insert_forward rule.listen rule.remote rule.close_on_request_timeout_secs before ≡ ok change
    → HasForward rule before (changed before change)
unfolding insert_forward
insert_forward-HasForward rule before change h = go (find_forward rule.listen before) refl
  where
    go :
        (found : Option ForwardService)
        → find_forward rule.listen before ≡ found
        → HasForward rule before (changed before change)
    go none q =
        let e : some
              (with_forward rule.listen rule.remote rule.close_on_request_timeout_secs before)
            ≡ change =
          cc (
            h,
            insert_forward-new rule.listen rule.remote rule.close_on_request_timeout_secs before q,
          ) in
        subst (λ c. HasForward rule before (changed before c)) e
          (record {
            rules = λ other. find-append rule other (forward_services before.forward) q;
            serves = refl;
          })
    go (some existing) q =
        let listens : existing.listen ≡ rule.listen =
          find-listen rule.listen (forward_services before.forward) existing q in
        let e : (none ≡ change)
            × (existing.remote ≡ rule.remote)
            × (existing.close_on_request_timeout_secs ≡ rule.close_on_request_timeout_secs) =
          ground (arith, text_eq_iff existing.remote rule.remote) in
        let same : existing ≡ rule = λ i. record {
          listen = listens i;
          remote = e.1 i;
          close_on_request_timeout_secs = e.2 i;
        } in
        subst (λ c. HasForward rule before (changed before c)) e.0
          (record {
            rules = λ other. found other (q ∙ ap some same) (Bool-cases (rule.listen == other));
            serves = refl;
          })
      where
        found :
            (other : Text)
            → find_forward rule.listen before ≡ some rule
            → (((rule.listen == other) ≡ true) ⊎ ((rule.listen == other) ≡ false))
            → find_forward other before
              ≡ (if rule.listen == other then some rule else find_forward other before)
        found other there (inl p) = rw p (
            subst (λ o. find_forward o before ≡ some rule) ((text_eq_iff rule.listen other).0 p)
              there)
        found other there (inr p) = rw p refl

-- What a call did.
pub record AddsForward ⦃toml : Toml⦄ (path : Text) (rule : ForwardService) (d : Disk)
    (r : Result ConfigError (Unit {0}) × Disk) : Type 0 where
  pub added :
      is_ok r.0 ≡ true
      → (before : Config) × (after : Config) × (view path d ≡ some before)
        × (view path r.1 ≡ some after)
        × HasForward rule before after
  pub untouched : is_ok r.0 ≡ false → lookup path r.1.files ≡ lookup path d.files

module _ (EndpointId : Type 0) ⦃iroh : Iroh EndpointId⦄ ⦃toml : Toml⦄ (os : Os) (path : Text)
    (rule : ForwardService) (d : Disk) where
  -- After a successful call the file stands for a configuration with the rule, and otherwise the
  -- same rules as before; a call that fails leaves the file as it was. The toml crate reads what it
  -- prints, the file's state can be read, and the names of the files differ.
  pub add_persistent_forward_rule-AddsForward :
      RoundTrips toml
      → os.stat_fails ≡ false
      → HasDistinctKeys d.files
      → AddsForward path rule d (
          add_persistent_forward_rule os EndpointId path rule.listen rule.remote
            rule.close_on_request_timeout_secs d)
  unfolding add_persistent_forward_rule
  add_persistent_forward_rule-AddsForward trips seen known =
      checked (is_empty (trim rule.listen)) (parse rule.remote)
    where
      insertion : Config → Result ConfigError (Option Config)
      insertion = insert_forward rule.listen rule.remote rule.close_on_request_timeout_secs

      refused : (e : ConfigError) → AddsForward path rule d (err e, d)
      refused e = record { added = λ h. cc; untouched = λ h. refl }

      checked :
          (empty : Bool) (parsed : Result PathError (RemotePath EndpointId))
          → AddsForward path rule d (
              continue
                (bail_if empty empty_listen, d)
                (λ _ s.
                  continue
                    (map_err invalid_remote_path parsed, s)
                    (λ _. update_with os path insertion)))
      checked true parsed = refused empty_listen
      checked false (err e) = refused (invalid_remote_path e)
      checked false (ok remote) =
          let u = update_with-Updates os path insertion d trips seen known in
          record {
            added = λ h.
                let (before, change, was, computed, now) = u.updated h in
                (
                  before,
                  changed before change,
                  was,
                  now,
                  insert_forward-HasForward rule before change computed,
                );
            untouched = u.untouched;
          }

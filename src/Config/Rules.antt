-- ===== src/Config/Rules.antt =====
-- src/config.rs: the configuration's data, and what the rules do to it in memory.
use iroh_proxy.Common.{
  ℕ, Bool, not, ◌&&◌, Option, none, some, List, [], ◌∷◌, ◌++◌, Result, ok, err, if◌then◌else◌, ◌==◌,
  nat_eq, length, find, retain, is_empty,
}
use iroh_proxy.Common.Text.{Text, text_Keyed}
use iroh_proxy.RemotePath.{NameError, PathError}

pub record ServeService : Type 0 where
  pub name : Text
  pub target : Text

pub record ForwardService : Type 0 where
  pub listen : Text
  pub remote : Text
  pub close_on_request_timeout_secs : ℕ

pub record ServeSection : Type 0 where
  pub services : List ServeService

pub record ForwardSection : Type 0 where
  pub services : List ForwardService

pub record Config : Type 0 where
  pub serve : Option ServeSection
  pub forward : Option ForwardSection

-- `Config::default()`.
abbrev pub default_config : Config
default_config = record { serve = none; forward = none }

-- The timeout of a rule whose entry in the file names none.
abbrev pub default_close_on_request_timeout_secs : ℕ
default_close_on_request_timeout_secs = 2

pub data ConfigError : Type 0 where
  read_failed invalid_toml serialize_failed : ConfigError
  create_dir_failed create_temp_failed write_temp_failed sync_temp_failed replace_failed :
      ConfigError
  invalid_service_name : NameError → ConfigError
  invalid_remote_path : PathError → ConfigError
  empty_target empty_listen : ConfigError
  service_exists : Text → ConfigError
  forward_exists : Text → ℕ → ConfigError

-- The rules of a section, with `get_or_insert_with(default)` where there is none.
abbrev pub serve_services : Option ServeSection → List ServeService
serve_services none = []
serve_services (some serve) = serve.services

abbrev pub forward_services : Option ForwardSection → List ForwardService
forward_services none = []
forward_services (some forward) = forward.services

-- What is to be written: `none` if the rule is there already.
unfoldable pub insert_serve : Text → Text → Config → Result ConfigError (Option Config)
insert_serve name target config =
    let services = serve_services config.serve in
    elim (find (λ entry. entry.name == name) services) [
      | none ↦ ok (
          some (record config {
            serve =
                some (record {
                  services = services ++ (record { name = name; target = target } ∷ []);
                });
          }))
      | some existing ↦
          if existing.target == target then ok none else err (service_exists existing.target)
    ]

unfoldable pub insert_forward : Text → Text → ℕ → Config → Result ConfigError (Option Config)
insert_forward listen remote timeout_secs config =
    let services = forward_services config.forward in
    elim (find (λ entry. entry.listen == listen) services) [
      | none ↦ ok (
          some (record config {
            forward = some (record {
              services =
                  services
                  ++ (record {
                    listen = listen;
                    remote = remote;
                    close_on_request_timeout_secs = timeout_secs;
                  }
                      ∷ []);
            });
          }))
      | some existing ↦
          if existing.remote == remote && nat_eq existing.close_on_request_timeout_secs timeout_secs
          then ok none
          else err (forward_exists existing.remote existing.close_on_request_timeout_secs)
    ]

-- A section that is left empty is dropped.
abbrev pub section_of : List ForwardService → Option ForwardSection
section_of services = if is_empty services then none else some (record { services = services })

-- What is to be written: `none` if no rule matches.
unfoldable pub retain_forwards : (ForwardService → Bool) → Config → Option Config
retain_forwards matches config = elim config.forward [
  | none ↦ none
  | some forward ↦
      let services = retain (λ entry. not (matches entry)) forward.services in
      if nat_eq (length services) (length forward.services)
      then none
      else some (record config { forward = section_of services })
]

-- ===== src/Config/Tests.antt =====
-- Runs of src/config.rs, and the theorems at concrete inputs.
use iroh_proxy.Common.{◌≡◌, refl, false, true, none, some, [], ◌∷◌, ok, err, ◌==◌, Bool}
use iroh_proxy.Common.Text.{Text, text, text_Keyed}
use iroh_proxy.Common.Utf8.{text_computes}
use iroh_proxy.Common.Dict.{lookup, insert, remove, contains_key}
use iroh_proxy.RemotePath.{validate_service_name, is_bad_char}
use iroh_proxy.Config.Rules.{
  Config, ForwardService, insert_serve, insert_forward, retain_forwards, default_config,
  service_exists, sync_temp_failed,
}
use iroh_proxy.Config.Files.{
  Os, Disk, temp_name, write_config, write_config_atomic, load_config_or_default,
  add_persistent_serve_rule, remove_persistent_forward_rule_by_listen,
  remove_persistent_forward_rule_inner,
}
use iroh_proxy.Config.Atomic.{Replaces, write_config_atomic-Replaces}
use iroh_proxy.Config.Codec.{sample_toml, sample_toml-RoundTrips}
use iroh_proxy.Common.Decimal.{decimal}
use iroh_proxy.Config.Serving.{
  Adds, add_persistent_serve_rule-Adds, add_persistent_serve_rule_again,
}
use iroh_proxy.Config.Forwarding.{
  Removes, remove_persistent_forward_rule_inner-Removes, retain_forwards-insert_forward,
}

abbrev quiet : Os
quiet = record {
  process_id = 7;
  stat_fails = false;
  read_fails = false;
  create_dir_fails = false;
  open_fails = false;
  write_fails = none;
  sync_fails = false;
  rename_fails = false;
  remove_fails = false;
}

abbrev blank : Disk
blank = record { files = []; temp_counter = 0 }

abbrev path : Text
path = text "config.toml"

abbrev after_add : Disk
after_add = (add_persistent_serve_rule quiet path (text "web") (text "h:1") blank).1

runs : Unit {0}
unfolding text_computes lookup insert remove contains_key validate_service_name is_bad_char
    temp_name decimal write_config write_config_atomic load_config_or_default
    add_persistent_serve_rule insert_serve insert_forward retain_forwards
    remove_persistent_forward_rule_by_listen sample_toml
runs = tt

add_tests :
    ((add_persistent_serve_rule quiet path (text "web") (text "h:1") blank).0 ≡ ok tt)
    × ((add_persistent_serve_rule quiet path (text "web") (text "h:2") after_add).0
        ≡ err (service_exists (text "h:1")))
    × ((add_persistent_serve_rule
          (record quiet { sync_fails = true })
          path
          (text "web")
          (text "h:1")
          blank).0
        ≡ err sync_temp_failed)
    × ((remove_persistent_forward_rule_by_listen quiet path (text "l") after_add).0 ≡ ok false)
unfolding runs
add_tests = (refl, refl, refl, refl)

write_config_atomic-Replaces_example :
    Replaces quiet path
      (temp_name path 7 0)
      (1 ∷ 2 ∷ [])
      blank.files
      (write_config_atomic quiet path (1 ∷ 2 ∷ []) blank)
write_config_atomic-Replaces_example = write_config_atomic-Replaces quiet path (1 ∷ 2 ∷ []) blank tt

web_added :
    Adds path
      (text "web")
      (text "h:1")
      blank
      (add_persistent_serve_rule quiet path (text "web") (text "h:1") blank)
web_added =
    add_persistent_serve_rule-Adds quiet path (text "web") (text "h:1") blank sample_toml-RoundTrips
      refl tt

added_again :
    add_persistent_serve_rule quiet path (text "web") (text "h:1") after_add ≡ (ok tt, after_add)
unfolding runs
added_again =
    add_persistent_serve_rule_again quiet path (text "web") (text "h:1") blank quiet
      sample_toml-RoundTrips refl refl refl tt refl

abbrev at_l : ForwardService → Bool
at_l entry = entry.listen == text "l"

remove_persistent_forward_rule_inner-Removes_example :
    Removes path at_l blank (remove_persistent_forward_rule_inner quiet path at_l blank)
remove_persistent_forward_rule_inner-Removes_example =
    remove_persistent_forward_rule_inner-Removes quiet path at_l blank sample_toml-RoundTrips refl
      tt

abbrev forwarded : Config
forwarded = record {
  serve = none;
  forward = some (record {
    services =
        record { listen = text "l"; remote = text "r"; close_on_request_timeout_secs = 2 } ∷ [];
  });
}

removed_again : retain_forwards at_l forwarded ≡ some default_config
unfolding insert_forward
removed_again =
    retain_forwards-insert_forward (text "l") (text "r") 2 default_config forwarded refl (λ e. cc)
      refl

-- ===== src/Commands/ForwardTests.antt =====
-- Runs of the forward commands of src/main.rs, and the theorems at concrete inputs.
use iroh_proxy.Common.{ℕ, ◌≡◌, refl, true, [], ok, err, length, map, ◌∷◌}
use iroh_proxy.Common.Dict.{keys, lookup, insert, remove, contains_key, values}
use iroh_proxy.Common.Text.{Text, text, text_Keyed, trim}
use iroh_proxy.Common.Utf8.{text_computes}
use iroh_proxy.Common.Decimal.{decimal}
use iroh_proxy.RemotePath.{validate_service_name, is_bad_char, parse}
use iroh_proxy.RemotePath.Samples.{letter_ids}
use iroh_proxy.Config.Rules.{insert_forward, retain_forwards, replace_failed}
use iroh_proxy.Config.Forwarding.{by_listen}
use iroh_proxy.Config.Files.{
  temp_name, write_config, write_config_atomic, load_config_or_default, add_persistent_forward_rule,
  remove_persistent_forward_rule_by_listen,
}
use iroh_proxy.Config.Codec.{sample_toml, sample_toml-RoundTrips}
use iroh_proxy.Daemon.State.{
  ForwardBinding, send_state, add_forward_binding, spawn, abort, change_task, cancelling,
  not_forwarded,
}
use iroh_proxy.Daemon.Service.{add_forward, del_forward}
use iroh_proxy.Daemon.Owned.{starts, adds}
use iroh_proxy.Commands.Persistent.{
  World, persist_failed, call_failed, add_forward_command, del_forward_command,
}
use iroh_proxy.Commands.Samples.{faultless, no_rename, idle, anywhere}
use iroh_proxy.Commands.ForwardRollback.{ForwardsOrNot, add_forward_command-ForwardsOrNot}
use iroh_proxy.Commands.Deleting.{Deleted, del_forward_command-Deleted}

abbrev path : Text
path = text "config.toml"

forward_runs : Unit {0}
unfolding text_computes keys lookup insert remove contains_key values validate_service_name
    is_bad_char parse temp_name decimal write_config write_config_atomic load_config_or_default
    add_persistent_forward_rule remove_persistent_forward_rule_by_listen insert_forward
    retain_forwards sample_toml send_state spawn abort change_task add_forward_binding add_forward
    del_forward add_forward_command del_forward_command trim
forward_runs = tt

forward_tests :
    let failed =
      add_forward_command no_rename anywhere path true 2 (text "l") (text "a/tcp/x") idle in
    let added =
      add_forward_command faultless anywhere path true 2 (text "l") (text "a/tcp/x") idle in
    (failed.0 ≡ err (persist_failed replace_failed (ok tt)))
    × (failed.1.daemon.forwards ≡ [])
    × (map (λ (n, t). t.phase) failed.1.daemon.tasks ≡ cancelling ∷ [])
    × (added.0 ≡ ok tt)
    × (length added.1.daemon.tasks ≡ 1)
    × ((del_forward_command faultless path true (text "l") added.1).0 ≡ ok true)
    × ((del_forward_command faultless path true (text "k") added.1).0
        ≡ err (call_failed (not_forwarded (text "k"))))
unfolding forward_runs
forward_tests = (refl, refl, refl, refl, refl, refl, refl)

add_forward_command-ForwardsOrNot_example :
    ForwardsOrNot path
      (text "l")
      (text "a/tcp/x")
      2
      idle
      true
      (add_forward_command no_rename anywhere path true 2 (text "l") (text "a/tcp/x") idle)
add_forward_command-ForwardsOrNot_example =
    add_forward_command-ForwardsOrNot path (text "l") (text "a/tcp/x") 2 idle no_rename anywhere
      (starts 0) sample_toml-RoundTrips refl tt true

abbrev binding : ForwardBinding ℕ
binding = record {
  listen = text "l";
  remote = record { endpoint_id = 0; service = text "x" };
  close_on_request_timeout = 2;
}

abbrev listening : World ℕ
listening = record idle { daemon = (add_forward_binding anywhere binding true idle.daemon).1 }

del_forward_command-Deleted_example :
    Deleted path
      (text "l")
      (by_listen (text "l"))
      listening
      true
      (del_forward_command faultless path true (text "l") listening)
del_forward_command-Deleted_example =
    del_forward_command-Deleted path (text "l") listening faultless true sample_toml-RoundTrips refl
      tt (adds anywhere binding true (starts 0))

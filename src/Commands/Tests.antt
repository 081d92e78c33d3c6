-- ===== src/Commands/Tests.antt =====
-- Runs of the commands of src/main.rs, and the theorems at concrete inputs.
use iroh_proxy.Common.{◌≡◌, refl, true, [], ok, err}
use iroh_proxy.Common.Dict.{keys, lookup, insert, remove, contains_key, values}
use iroh_proxy.Common.Text.{Text, text, text_Keyed, trim}
use iroh_proxy.Common.Utf8.{text_computes}
use iroh_proxy.Common.Decimal.{decimal}
use iroh_proxy.RemotePath.{validate_service_name, is_bad_char, service_to_alpn}
use iroh_proxy.Config.Rules.{insert_serve, replace_failed}
use iroh_proxy.Config.Files.{
  temp_name, write_config, write_config_atomic, load_config_or_default, add_persistent_serve_rule,
}
use iroh_proxy.Config.Codec.{sample_toml, sample_toml-RoundTrips}
use iroh_proxy.Daemon.State.{send_state, sync_endpoint_alpns, add_serve_route}
use iroh_proxy.Daemon.Service.{add_serve, del_serve, list_serves}
use iroh_proxy.Commands.Samples.{faultless, no_rename, idle}
use iroh_proxy.Commands.Persistent.{persist_failed, add_serve_command, enter_add_service}
use iroh_proxy.Commands.Rollback.{
  AddsOrNot, add_serve_command-AddsOrNot, enter_add_service-AddsOrNot,
}

abbrev path : Text
path = text "config.toml"

runs : Unit {0}
unfolding text_computes keys lookup insert remove contains_key values validate_service_name
    is_bad_char service_to_alpn temp_name decimal write_config write_config_atomic
    load_config_or_default add_persistent_serve_rule insert_serve sample_toml send_state
    sync_endpoint_alpns add_serve_route add_serve del_serve list_serves add_serve_command
runs = tt

command_tests :
    ((add_serve_command faultless path true (text "web") (text "h:1") idle).0 ≡ ok tt)
    × ((add_serve_command no_rename path true (text "web") (text "h:1") idle).0
        ≡ err (persist_failed replace_failed (ok tt)))
    × (list_serves (add_serve_command no_rename path true (text "web") (text "h:1") idle).1.daemon
        ≡ [])
unfolding runs
command_tests = (refl, refl, refl)

add_serve_command-AddsOrNot_example :
    AddsOrNot path
      (text "web")
      (text "h:1")
      idle
      true
      (add_serve_command no_rename path true (text "web") (text "h:1") idle)
add_serve_command-AddsOrNot_example =
    add_serve_command-AddsOrNot path (text "web") (text "h:1") idle no_rename true
      sample_toml-RoundTrips refl tt

enter_rolls_back :
    AddsOrNot path
      (trim (text " web"))
      (trim (text "h:1 "))
      idle
      true
      (enter_add_service no_rename path true (text " web") (text "h:1 ") idle)
enter_rolls_back =
    enter_add_service-AddsOrNot path (text " web") (text "h:1 ") idle no_rename true
      sample_toml-RoundTrips refl tt

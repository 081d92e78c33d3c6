-- ===== src/Systemd/Tests.antt =====
-- Runs of src/systemd.rs, and the theorems at concrete inputs.
use iroh_proxy.Common.{◌≡◌, refl, true, false, none, some, [], ok, err}
use iroh_proxy.Common.Dict.{lookup, insert}
use iroh_proxy.Common.Text.{text, text_Keyed}
use iroh_proxy.Common.Utf8.{text_computes}
use iroh_proxy.Systemd.{
  quote_systemd_arg, escape, join_args, render_exec_start, render_unit, unlines, UnitOs,
  no_home_directory, absolutize_path, user_service_path, install_user_service,
}
use iroh_proxy.Systemd.Installed.{Installs, install_user_service-Installs}

abbrev home : UnitOs
home = record {
  config_dir = some (text "/h/.config");
  current_dir = some (text "/w");
  create_dir_fails = false;
  write_fails = none;
}

unit_runs : Unit {0}
unfolding text_computes escape quote_systemd_arg join_args render_exec_start unlines render_unit
    absolutize_path user_service_path install_user_service lookup insert
unit_runs = tt

systemd_tests :
    (quote_systemd_arg (text "a\"b\\") ≡ text "\"a\\\"b\\\\\"")
    × (render_exec_start (text "x") none (text "c") false
        ≡ text "\"x\" \"--config-file\" \"c\" \"--no-mdns\" \"server\"")
    × ((install_user_service home (text "x") none (text "c") true []).0
        ≡ ok (text "/h/.config/systemd/user/iroh-proxy.service"))
    × (install_user_service (record home { config_dir = none }) (text "x") none (text "c") true []
        ≡ (err no_home_directory, []))
unfolding unit_runs
systemd_tests = (refl, refl, refl, refl)

install_user_service-Installs_example :
    Installs home
      (text "/bin/iroh proxy")
      (some (text "k"))
      (text "/c")
      false
      []
      (install_user_service home (text "/bin/iroh proxy") (some (text "k")) (text "/c") false [])
install_user_service-Installs_example =
    install_user_service-Installs home (text "/bin/iroh proxy") (some (text "k")) (text "/c") false
      [] (record { plain = refl; absolute = refl }) refl refl refl

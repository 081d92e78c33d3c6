-- ===== src/Tui/DrawTests.antt =====
-- Runs of the drawing of src/tui.rs, and the theorem at a concrete input.
use iroh_proxy.Common.{◌≡◌, refl, true, false, Option, none, some, [], ◌∷◌, if◌then◌else◌}
use iroh_proxy.Common.Text.{Text, text, text_eq, trim, text_Keyed}
use iroh_proxy.Common.Utf8.{text_computes}
use iroh_proxy.Tui.App.{App, Snapshot, default_app, compact, apply_snapshot}
use iroh_proxy.Tui.Keys.{right, down, handle_non_modal_key}
use iroh_proxy.Tui.Labels.{
  enabled, disabled, parse_use_nerd_fonts_value, detect_icon_mode_auto, truncate_with_ellipsis,
}
use iroh_proxy.Tui.Draw.{draw}

abbrev environment : Text → Text → Text → Option Text
environment term locale name =
    if text_eq name (text "TERM")
    then some term
    else if text_eq name (text "LANG")
    then some locale
    else none

label_tests :
    (parse_use_nerd_fonts_value (text " Yes ") ≡ some true)
    × (parse_use_nerd_fonts_value (text "OFF") ≡ some false)
    × (parse_use_nerd_fonts_value (text "maybe") ≡ none)
    × (detect_icon_mode_auto (environment (text "xterm") (text "C")) ≡ disabled)
    × (detect_icon_mode_auto (environment (text "Dumb") (text "en.UTF-8")) ≡ disabled)
    × (detect_icon_mode_auto (environment (text "xterm") (text "en.utf8")) ≡ enabled)
    × (truncate_with_ellipsis (text "abcdef") 5 ≡ text "ab...")
    × (truncate_with_ellipsis (text "abcdef") 2 ≡ text "..")
unfolding text_computes trim parse_use_nerd_fonts_value detect_icon_mode_auto truncate_with_ellipsis
label_tests = (refl, refl, refl, refl, refl, refl, refl, refl)

abbrev two_forwards : Snapshot
two_forwards = record {
  status = some (record { endpoint_id = text "id"; connections = 0; served = 0; forwards = 2 });
  services = [];
  forwards =
      record { listen = text "b"; remote = text "id/tcp/x"; persisted = true }
      ∷ record { listen = text "a"; remote = text "id/tcp/y"; persisted = false }
      ∷ [];
  connections = [];
}

-- The second forward, `b`, is selected in the compact layout.
abbrev at_b : App
at_b =
    (handle_non_modal_key down compact
      (handle_non_modal_key right compact (apply_snapshot two_forwards default_app)).1).1

drawn_compact : (draw enabled 80 20 compact at_b).help ≡ text "Tab row  Left/Rig..."
unfolding draw handle_non_modal_key apply_snapshot text_computes
drawn_compact = refl

-- ===== src/Tui/LoopTests.antt =====
-- Runs of the event loop of src/tui.rs, and the theorems at concrete inputs.
use iroh_proxy.Common.{ℕ, ◌≡◌, refl, true, false, some, List, [], ◌∷◌, ok, map}
use iroh_proxy.Common.Dict.{keys, lookup, insert, remove, contains_key, values}
use iroh_proxy.Common.Text.{text, trim, text_Keyed}
use iroh_proxy.Common.Utf8.{text_computes}
use iroh_proxy.RemotePath.{validate_service_name, is_bad_char, service_to_alpn}
use iroh_proxy.RemotePath.Samples.{letter_ids}
use iroh_proxy.Config.Codec.{sample_toml}
use iroh_proxy.Control.{
  client_status, client_list_serves, client_list_forwards, client_list_connections,
}
use iroh_proxy.Daemon.State.{send_state, sync_endpoint_alpns, add_serve_route}
use iroh_proxy.Daemon.Service.{add_serve, status, list_serves, list_forwards, list_connections}
use iroh_proxy.Commands.Samples.{faultless, idle, anywhere}
use iroh_proxy.Commands.Persistent.{World, enter_add_service}
use iroh_proxy.Tui.App.{apply_snapshot, default_app, message}
use iroh_proxy.Tui.Keys.{char, tab, enter}
use iroh_proxy.Tui.Dialogs.{outcome}
use iroh_proxy.Tui.Fetch.{fetch_snapshot, replies_of}
use iroh_proxy.Tui.Fetching.{Shows, fetch_snapshot-Shows}
use iroh_proxy.Tui.Loop.{Event, pressed, Outside, run_tui_loop}
use iroh_proxy.Tui.Looping.{Sound, run_tui_loop-Sound}

abbrev live : Outside ℕ
live = record {
  replies = λ w. replies_of w.daemon;
  reaches = λ w. true;
  start = λ w. ok false;
  after_start = λ w. w;
  format_command = λ e. text "command";
  format_start = λ e. text "start";
}

abbrev pressing : List Event → World ℕ → List (World ℕ × Event)
pressing events world = map (λ e. (world, e)) events

-- `a` opens the dialog, which is filled in; the world is that of the start until Enter.
abbrev adding : List (World ℕ × Event)
adding =
    pressing
      (pressed (char b'a') false 100 30
        ∷ pressed (char b'w') false 100 30
        ∷ pressed tab false 100 30
        ∷ pressed (char b'h') false 100 30
        ∷ pressed enter false 100 30
        ∷ [])
      idle

-- The server is gone, while the client is kept.
abbrev lost : Outside ℕ
lost = record live { reaches = λ w. false }

session_runs : Unit {0}
unfolding text_computes keys lookup insert remove contains_key values validate_service_name
    is_bad_char service_to_alpn send_state sync_endpoint_alpns add_serve_route add_serve trim
    enter_add_service run_tui_loop replies_of apply_snapshot fetch_snapshot status list_serves
    list_forwards list_connections outcome client_status client_list_serves client_list_forwards
    client_list_connections
session_runs = tt

session_tests :
    let ended = run_tui_loop live faultless anywhere (text "c") idle adding in
    let failed = run_tui_loop lost faultless anywhere (text "c") idle adding in
    (ended.0 ≡ false)
    × (ended.1.app.services ≡ record { name = text "w"; target = text "h" } ∷ [])
    × (ended.1.app.modal ≡ some (message (text "Info") (text "Added service: w -> h")))
    × (ended.1.app.selected_service ≡ some 0)
    × (failed.1.app.services ≡ [])
    × (failed.1.app.modal ≡ some (message (text "Error") (text "command")))
    × (failed.1.world ≡ idle)
unfolding session_runs
session_tests = (refl, refl, refl, refl, refl, refl, refl)

run_tui_loop-Sound_example : Sound (run_tui_loop live faultless anywhere (text "c") idle adding).1
run_tui_loop-Sound_example = run_tui_loop-Sound live faultless anywhere (text "c") idle adding

fetch_snapshot-Shows_example :
    let d = (add_serve (text "w") (text "h") idle.daemon).1 in
    let fetched = fetch_snapshot (replies_of d) false in
    (fetched.1 ≡ true) × Shows d (apply_snapshot fetched.0 default_app)
fetch_snapshot-Shows_example =
    fetch_snapshot-Shows (add_serve (text "w") (text "h") idle.daemon).1 false default_app

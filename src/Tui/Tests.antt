-- ===== src/Tui/Tests.antt =====
-- Runs of src/tui.rs, and the theorems at concrete inputs.
use iroh_proxy.Common.{◌<◌, ◌≡◌, refl, true, false, some, [], ◌∷◌, arith}
use iroh_proxy.Common.Text.{text}
use iroh_proxy.Control.{ForwardRoute}
use iroh_proxy.Tui.App.{
  AddServiceDialog, App, Snapshot, default_app, compact, full, layout_mode_for_dimensions,
  apply_snapshot, remove_forward, removal, selected,
}
use iroh_proxy.Tui.Dialogs.{edit_add_service}
use iroh_proxy.Tui.Editing.{edit_add_service_undo, edit_add_service_tabs}
use iroh_proxy.Tui.Keys.{
  tab, backspace, back_tab, char, right, down, continue, start_backend, handle_non_modal_key,
}
use iroh_proxy.Tui.Consistent.{Consistent}
use iroh_proxy.Tui.Sessions.{
  Reach, start, step, refreshed, pressed, Reach-Consistent, remove_key_on_forwards,
}

layout_thresholds :
    (layout_mode_for_dimensions 159 36 ≡ compact)
    × (layout_mode_for_dimensions 160 35 ≡ compact)
    × (layout_mode_for_dimensions 160 36 ≡ full)
unfolding layout_mode_for_dimensions
layout_thresholds = (refl, refl, refl)

abbrev route_b : ForwardRoute
route_b = record { listen = text "b"; remote = text "id/tcp/x"; persisted = true }

abbrev route_a : ForwardRoute
route_a = record { listen = text "a"; remote = text "id/tcp/y"; persisted = false }

abbrev snapshot : Snapshot
snapshot = record {
  status = some (record { endpoint_id = text "id"; connections = 0; served = 0; forwards = 2 });
  services = [];
  forwards = route_b ∷ route_a ∷ [];
  connections = [];
}

abbrev after_snapshot : App
after_snapshot = apply_snapshot snapshot default_app

-- The second forward, `b`, is selected in the compact layout.
abbrev session : App
session =
    (handle_non_modal_key down compact (handle_non_modal_key right compact after_snapshot).1).1

session-Reach : Reach session
unfolding handle_non_modal_key apply_snapshot
session-Reach =
    step (step (step start (refreshed snapshot)) (pressed right compact refl))
      (pressed down compact refl)

reached_state : Consistent session
reached_state = Reach-Consistent session-Reach

persisted_removed :
    (forward : ForwardRoute) × (selected session.selected_forward session.forwards ≡ some forward)
    × (handle_non_modal_key (char b'd') full session
        ≡ (continue, record session { modal = some (remove_forward (removal forward)) }))
unfolding handle_non_modal_key apply_snapshot
persisted_removed = remove_key_on_forwards full session-Reach refl refl (ground arith)

selected_is_b : selected session.selected_forward session.forwards ≡ some route_b
unfolding handle_non_modal_key apply_snapshot
selected_is_b = refl

start_key_without_server :
    handle_non_modal_key (char b's') full default_app ≡ (start_backend, default_app)
unfolding handle_non_modal_key
start_key_without_server = refl

abbrev dialog : AddServiceDialog
dialog = record { name = text "we"; target = text "h"; persist = false; field = 0 }

typing : (edit_add_service (char b'b') false dialog).name ≡ text "web"
unfolding edit_add_service
typing = refl

typed_and_erased :
    edit_add_service backspace false (edit_add_service (char b'b') false dialog) ≡ dialog
typed_and_erased = edit_add_service_undo b'b' dialog (ground arith)

tab_and_back :
    (edit_add_service back_tab false (edit_add_service tab false dialog) ≡ dialog)
    × (edit_add_service tab false (edit_add_service back_tab false dialog) ≡ dialog)
    × ((edit_add_service tab false dialog).field < 3)
tab_and_back = edit_add_service_tabs dialog (ground arith)

-- ===== src/Tui/Moves.antt =====
-- src/tui.rs: what a key changes while no dialog is open.
use iroh_proxy.Common.{ℕ, ◌<◌, ◌≡◌, refl, Option, none, some, arith}
use iroh_proxy.Tui.App.{
  Pane, App, Modal, add_service, add_forward, LayoutMode, full, compact, CompactFocus, on_routes,
  on_connections, RoutesView, next, prev, focus_compact, open_add_dialog, open_remove_dialog,
  open_for, move_selection_up, move_selection_down, sync_focus_from_compact,
}
use iroh_proxy.Tui.Keys.{
  KeyCode, char, tab, back_tab, up, down, left, right, enter, esc, backspace, other,
  handle_non_modal_key, turn_routes,
}
use iroh_proxy.Tui.Sessions.{handle_char_cases}

abbrev pub FieldFits : Option Modal → Type 0
FieldFits (some (add_service dialog)) = dialog.field < 3
FieldFits (some (add_forward dialog)) = dialog.field < 3
FieldFits modal = Unit {0}

-- A key keeps what the server's state is shown as, and the field of a dialog that it opens is one of
-- the three.
pub record Moved (app later : App) : Type 0 where
  pub status : later.status ≡ app.status
  pub services : later.services ≡ app.services
  pub forwards : later.forwards ≡ app.forwards
  pub connections : later.connections ≡ app.connections
  pub field : FieldFits app.modal → FieldFits later.modal

module _ {app : App} where
  with_navigation :
      (focus : Pane) (compact_focus : CompactFocus) (compact_routes : RoutesView)
      (service forward connection : Option ℕ)
      → Moved app (record app {
        focus = focus;
        compact_focus = compact_focus;
        compact_routes = compact_routes;
        selected_service = service;
        selected_forward = forward;
        selected_connection = connection;
      })
  with_navigation focus compact_focus compact_routes service forward connection = record {
    status = refl;
    services = refl;
    forwards = refl;
    connections = refl;
    field = λ h. h;
  }

  same_app : Moved app app
  same_app = with_navigation _ _ _ _ _ _

  with_dialog :
      (modal : Modal) → FieldFits (some modal) → Moved app (record app { modal = some modal })
  with_dialog modal fits = record {
    status = refl;
    services = refl;
    forwards = refl;
    connections = refl;
    field = λ h. fits;
  }

  open_add_dialog-Moved : (pane : Pane) → Moved app (open_add_dialog pane app)
  unfolding open_add_dialog
  open_add_dialog-Moved Pane.services = with_dialog _ (omega arith)
  open_add_dialog-Moved Pane.forwards = with_dialog _ (omega arith)
  open_add_dialog-Moved Pane.connections = same_app

  open_for-Moved :
      {A : Type 0} (dialog : A → Modal) (entry : Option A)
      → ((a : A) → FieldFits (some (dialog a)))
      → Moved app (open_for dialog entry app)
  open_for-Moved dialog none fits = same_app
  open_for-Moved dialog (some entry) fits = with_dialog _ (fits entry)

  open_remove_dialog-Moved : (pane : Pane) → Moved app (open_remove_dialog pane app)
  unfolding open_remove_dialog
  open_remove_dialog-Moved Pane.services = open_for-Moved _ _ (λ a. tt)
  open_remove_dialog-Moved Pane.forwards = open_for-Moved _ _ (λ a. tt)
  open_remove_dialog-Moved Pane.connections = same_app

  move_selection_up-Moved : (pane : Pane) → Moved app (move_selection_up pane app)
  unfolding move_selection_up
  move_selection_up-Moved Pane.services = with_navigation _ _ _ _ _ _
  move_selection_up-Moved Pane.forwards = with_navigation _ _ _ _ _ _
  move_selection_up-Moved Pane.connections = with_navigation _ _ _ _ _ _

  move_selection_down-Moved : (pane : Pane) → Moved app (move_selection_down pane app)
  unfolding move_selection_down
  move_selection_down-Moved Pane.services = with_navigation _ _ _ _ _ _
  move_selection_down-Moved Pane.forwards = with_navigation _ _ _ _ _ _
  move_selection_down-Moved Pane.connections = with_navigation _ _ _ _ _ _

  focus_compact-Moved :
      (on pane : Pane) → Moved app (focus_compact on (record app { focus = pane }))
  focus_compact-Moved Pane.services pane = with_navigation _ _ _ _ _ _
  focus_compact-Moved Pane.forwards pane = with_navigation _ _ _ _ _ _
  focus_compact-Moved Pane.connections pane = with_navigation _ _ _ _ _ _

  turn_routes-Moved : (on : CompactFocus) → Moved app (turn_routes on app)
  unfolding sync_focus_from_compact
  turn_routes-Moved on_routes = with_navigation _ _ _ _ _ _
  turn_routes-Moved on_connections = same_app

  pub handle_non_modal_key-Moved :
      (key : KeyCode) (layout_mode : LayoutMode)
      → Moved app (handle_non_modal_key key layout_mode app).1
  unfolding handle_non_modal_key
  handle_non_modal_key-Moved (char c) layout_mode =
      handle_char_cases c layout_mode app (λ (action, later). Moved app later) (λ action. same_app)
        (open_add_dialog-Moved _) (open_remove_dialog-Moved _)
  handle_non_modal_key-Moved up layout_mode = move_selection_up-Moved _
  handle_non_modal_key-Moved down layout_mode = move_selection_down-Moved _
  handle_non_modal_key-Moved tab full = focus_compact-Moved (next app.focus) _
  handle_non_modal_key-Moved back_tab full = focus_compact-Moved (prev app.focus) _
  handle_non_modal_key-Moved tab compact = with_navigation _ _ _ _ _ _
  handle_non_modal_key-Moved back_tab compact = with_navigation _ _ _ _ _ _
  handle_non_modal_key-Moved left compact = turn_routes-Moved _
  handle_non_modal_key-Moved right compact = turn_routes-Moved _
  handle_non_modal_key-Moved left full = same_app
  handle_non_modal_key-Moved right full = same_app
  handle_non_modal_key-Moved enter layout_mode = same_app
  handle_non_modal_key-Moved esc layout_mode = same_app
  handle_non_modal_key-Moved backspace layout_mode = same_app
  handle_non_modal_key-Moved other layout_mode = same_app

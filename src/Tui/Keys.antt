-- ===== src/Tui/Keys.antt =====
-- src/tui.rs: `handle_non_modal_key`.
use iroh_proxy.Common.{ℕ, if◌then◌else◌, nat_eq, is_some}
use iroh_proxy.Tui.App.{
  App, LayoutMode, full, compact, next, prev, CompactFocus, on_routes, on_connections, toggle_focus,
  toggle_view, active_pane, sync_compact_from_focus, sync_focus_from_compact, open_add_dialog,
  open_remove_dialog, move_selection_up, move_selection_down,
}

-- The keys of the crossterm crate that the interface tells apart.
pub data KeyCode : Type 0 where
  char : ℕ → KeyCode
  tab back_tab up down left right enter esc backspace other : KeyCode

pub data KeyAction : Type 0 where
  continue quit refresh start_backend : KeyAction

-- The letters, which both layouts handle alike but for the pane: that of the layout.
unfoldable pub handle_char : ℕ → LayoutMode → App → KeyAction × App
unfolding active_pane open_add_dialog open_remove_dialog
handle_char c layout_mode app =
    if nat_eq c b'q'
    then (quit, app)
    else if nat_eq c b'a'
    then (
      continue,
      if is_some app.status then open_add_dialog (active_pane layout_mode app) app else app,
    )
    else if nat_eq c b'd'
    then (
      continue,
      if is_some app.status then open_remove_dialog (active_pane layout_mode app) app else app,
    )
    else if nat_eq c b's'
    then (if is_some app.status then continue else start_backend, app)
    else if nat_eq c b'r'
    then (refresh, app)
    else (continue, app)

abbrev pub turn_routes : CompactFocus → App → App
turn_routes on_routes app =
    sync_focus_from_compact (record app { compact_routes = toggle_view app.compact_routes })
turn_routes on_connections app = app

unfoldable pub handle_non_modal_key : KeyCode → LayoutMode → App → KeyAction × App
unfolding handle_char next prev toggle_focus toggle_view sync_compact_from_focus
    sync_focus_from_compact move_selection_up move_selection_down
handle_non_modal_key (char c) layout_mode app = handle_char c layout_mode app
handle_non_modal_key up layout_mode app =
    (continue, move_selection_up (active_pane layout_mode app) app)
handle_non_modal_key down layout_mode app =
    (continue, move_selection_down (active_pane layout_mode app) app)
handle_non_modal_key tab full app =
    (continue, sync_compact_from_focus (record app { focus = next app.focus }))
handle_non_modal_key back_tab full app =
    (continue, sync_compact_from_focus (record app { focus = prev app.focus }))
handle_non_modal_key tab compact app = (
  continue,
  sync_focus_from_compact (record app { compact_focus = toggle_focus app.compact_focus }),
)
handle_non_modal_key back_tab compact app = (
  continue,
  sync_focus_from_compact (record app { compact_focus = toggle_focus app.compact_focus }),
)
handle_non_modal_key left compact app = (continue, turn_routes app.compact_focus app)
handle_non_modal_key right compact app = (continue, turn_routes app.compact_focus app)
handle_non_modal_key left full app = (continue, app)
handle_non_modal_key right full app = (continue, app)
handle_non_modal_key enter layout_mode app = (continue, app)
handle_non_modal_key esc layout_mode app = (continue, app)
handle_non_modal_key backspace layout_mode app = (continue, app)
handle_non_modal_key other layout_mode app = (continue, app)

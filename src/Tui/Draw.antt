-- ===== src/Tui/Draw.antt =====
-- src/tui.rs: what is drawn, as text: the tables with their selected rows, the focus, the lines of
-- the status and the keys. The layout and the styles are ratatui's; the widths that it gives to the
-- line of the endpoint and the line of keys are arguments.
use iroh_proxy.Common.{
  ℕ, ◌-◌, Bool, true, false, Option, none, some, List, [], ◌∷◌, ◌++◌, map, not, if◌then◌else◌,
  is_some,
}
use iroh_proxy.Common.Text.{Text, text}
use iroh_proxy.Common.Decimal.{decimal}
use iroh_proxy.Daemon.Service.{Status}
use iroh_proxy.Tui.App.{
  Pane, App, Modal, LayoutMode, full, compact, CompactFocus, on_routes, on_connections, RoutesView,
  services_view, forwards_view,
}
use iroh_proxy.Tui.Popup.{Popup, draw_modal}
use iroh_proxy.Tui.Labels.{
  IconMode, services_label, forwards_label, connections_label, status_running_label,
  status_disconnected_label, status_up_label, status_down_label, endpoint_label,
  compact_counters_label, truncate_with_ellipsis,
}

-- A frame with a title; it is highlighted at the focus.
pub record Block : Type 0 where
  pub title : Text
  pub highlighted : Bool

pub record Table : Type 0 where
  pub block : Option Block
  pub header : List Text
  pub rows : List (List Text)
  pub selected : Option ℕ

pub record Tabs : Type 0 where
  pub titles : List Text
  pub chosen : ℕ
  pub highlighted : Bool

pub data Body : Type 0 where
  three_tables : Table → Table → Table → Body
  routes_and_connections : Tabs → Table → Table → Body

pub record View : Type 0 where
  pub status_lines : List Text
  pub body : Body
  pub help : Text
  pub popup : Option Popup

unfoldable pub draw_services : App → Text → Bool → Bool → Table
draw_services app title focused decorated = record {
  block = if decorated then some (record { title = title; highlighted = focused }) else none;
  header = text "name" ∷ text "target" ∷ [];
  rows = map (λ service. service.name ∷ service.target ∷ []) app.services;
  selected = app.selected_service;
}

abbrev pub persisted_cell : Bool → Bool → Text
persisted_cell short persisted =
    if short
    then if persisted then text "y" else text "n"
    else if persisted
    then text "yes"
    else text "no"

unfoldable pub draw_forwards : App → Text → Bool → Bool → Bool → Table
draw_forwards app title focused short decorated = record {
  block = if decorated then some (record { title = title; highlighted = focused }) else none;
  header = text "listen" ∷ text "remote" ∷ text "p" ∷ [];
  rows =
      map (λ forward. forward.listen ∷ forward.remote ∷ persisted_cell short forward.persisted ∷ [])
        app.forwards;
  selected = app.selected_forward;
}

unfoldable pub draw_connections : App → Text → Bool → Table
draw_connections app title focused = record {
  block = some (record { title = title; highlighted = focused });
  header = text "type" ∷ text "src" ∷ text "dst" ∷ [];
  rows = map (λ conn. conn.kind ∷ conn.src ∷ conn.dst ∷ []) app.connections;
  selected = app.selected_connection;
}

unfoldable pub draw_routes_tabs : IconMode → RoutesView → Bool → Tabs
unfolding services_label forwards_label
draw_routes_tabs icon_mode routes_view focused = record {
  titles =
      (text "  " ++ (services_label icon_mode ++ text "  "))
      ∷ (text "  " ++ (forwards_label icon_mode ++ text "  "))
      ∷ [];
  chosen = elim routes_view [ services_view ↦ 0 | forwards_view ↦ 1 ];
  highlighted = focused;
}

abbrev pub is_pane : Pane → Pane → Bool
is_pane Pane.services Pane.services = true
is_pane Pane.forwards Pane.forwards = true
is_pane Pane.connections Pane.connections = true
is_pane p q = false

abbrev pub on_routes_row : CompactFocus → Bool
on_routes_row on_routes = true
on_routes_row on_connections = false

abbrev pub full_status : IconMode → Option Status → List Text
full_status icon_mode none =
    (status_disconnected_label icon_mode
      ++ text "  waiting for iroh-proxy server (press s to start)")
    ∷ []
full_status icon_mode (some status) =
    (status_running_label icon_mode
      ++ (text "  served: "
          ++ (decimal status.served
              ++ (text "  forwards: "
                  ++ (decimal status.forwards
                      ++ (text "  connections: " ++ decimal status.connections))))))
    ∷ (endpoint_label icon_mode false ++ (text ": " ++ status.endpoint_id))
    ∷ []

unfoldable pub draw_full : IconMode → App → View
unfolding draw_services draw_forwards draw_connections
draw_full icon_mode app = record {
  status_lines = full_status icon_mode app.status;
  body =
      three_tables
        (draw_services app (services_label icon_mode) (is_pane app.focus Pane.services) true)
        (draw_forwards app (forwards_label icon_mode) (is_pane app.focus Pane.forwards) false true)
        (draw_connections app (connections_label icon_mode false)
          (is_pane app.focus Pane.connections));
  help =
      if is_some app.status
      then text "Tab/Shift-Tab focus  Up/Down move  a add  d remove  r refresh  q quit"
      else text "Tab/Shift-Tab focus  Up/Down move  s start backend  r refresh  q quit";
  popup = none;
}

abbrev pub compact_status : IconMode → ℕ → Option Status → List Text
compact_status icon_mode width none =
    (status_down_label icon_mode ++ text " waiting for server (s=start)") ∷ [] ∷ []
compact_status icon_mode width (some status) =
    (status_up_label icon_mode ++ compact_counters_label icon_mode status)
    ∷ (endpoint_label icon_mode true
        ++ (text ": " ++ truncate_with_ellipsis status.endpoint_id (width - 4)))
    ∷ []

abbrev pub compact_table : IconMode → App → RoutesView → Table
compact_table icon_mode app services_view =
    draw_services app (services_label icon_mode) (on_routes_row app.compact_focus) false
compact_table icon_mode app forwards_view =
    draw_forwards app (forwards_label icon_mode) (on_routes_row app.compact_focus) true false

unfoldable pub draw_compact : IconMode → ℕ → ℕ → App → View
unfolding draw_services draw_forwards draw_connections draw_routes_tabs truncate_with_ellipsis
draw_compact icon_mode status_width help_width app = record {
  status_lines = compact_status icon_mode status_width app.status;
  body =
      routes_and_connections
        (draw_routes_tabs icon_mode app.compact_routes (on_routes_row app.compact_focus))
        (compact_table icon_mode app app.compact_routes)
        (draw_connections app (connections_label icon_mode true)
          (not (on_routes_row app.compact_focus)));
  help =
      truncate_with_ellipsis
        (if is_some app.status
          then text "Tab row  Left/Right view  Up/Down select  a add  d del  r sync  q quit"
          else text "Tab row  Left/Right view  Up/Down select  s start  r sync  q quit")
        help_width;
  popup = none;
}

abbrev pub draw_popup : Option Modal → Option Popup
draw_popup none = none
draw_popup (some modal) = some (draw_modal modal)

unfoldable pub draw : IconMode → ℕ → ℕ → LayoutMode → App → View
unfolding draw_full draw_compact draw_modal
draw icon_mode status_width help_width full app = record (draw_full icon_mode app) {
  popup = draw_popup app.modal;
}
draw icon_mode status_width help_width compact app =
    record (draw_compact icon_mode status_width help_width app) { popup = draw_popup app.modal }

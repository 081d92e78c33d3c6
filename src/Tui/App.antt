-- ===== src/Tui/App.antt =====
-- src/tui.rs: the panes, the dialogs and the state `App`, with its methods.
use iroh_proxy.Common.{
  ℕ, ◌+◌, ◌-◌, min, Bool, false, ◌||◌, Option, none, some, List, [], length, get_elem?,
  if◌then◌else◌, ltb, nat_eq,
}
use iroh_proxy.Common.Text.{Text, text}
use iroh_proxy.Control.{ActiveConnection, ServeRoute, ForwardRoute}
use iroh_proxy.Daemon.Service.{Status}
use iroh_proxy.Tui.Sorting.{text_lt, sort_by}

pub data Pane : Type 0 where
  services forwards connections : Pane

unfoldable pub next : Pane → Pane
next services = forwards
next forwards = connections
next connections = services

unfoldable pub prev : Pane → Pane
prev services = connections
prev forwards = services
prev connections = forwards

pub data LayoutMode : Type 0 where
  full compact : LayoutMode

pub data CompactFocus : Type 0 where
  on_routes on_connections : CompactFocus

unfoldable pub toggle_focus : CompactFocus → CompactFocus
toggle_focus on_routes = on_connections
toggle_focus on_connections = on_routes

pub data RoutesView : Type 0 where
  services_view forwards_view : RoutesView

unfoldable pub toggle_view : RoutesView → RoutesView
toggle_view services_view = forwards_view
toggle_view forwards_view = services_view

unfoldable pub as_pane : RoutesView → Pane
as_pane services_view = services
as_pane forwards_view = forwards

pub record AddServiceDialog : Type 0 where
  pub name : Text
  pub target : Text
  pub persist : Bool
  pub field : ℕ

pub record AddForwardDialog : Type 0 where
  pub listen : Text
  pub remote : Text
  pub persist : Bool
  pub field : ℕ

pub record RemoveForwardDialog : Type 0 where
  pub listen : Text
  pub remote : Text
  pub remove_persistently : Bool

pub data Modal : Type 0 where
  add_service : AddServiceDialog → Modal
  add_forward : AddForwardDialog → Modal
  remove_service : Text → Modal
  remove_forward : RemoveForwardDialog → Modal
  message : Text → Text → Modal

pub record Snapshot : Type 0 where
  pub status : Option Status
  pub services : List ServeRoute
  pub forwards : List ForwardRoute
  pub connections : List ActiveConnection

-- The state, without the icon mode, which only the drawing reads.
pub record App : Type 0 where
  pub status : Option Status
  pub services : List ServeRoute
  pub forwards : List ForwardRoute
  pub connections : List ActiveConnection
  pub focus : Pane
  pub compact_focus : CompactFocus
  pub compact_routes : RoutesView
  pub selected_service : Option ℕ
  pub selected_forward : Option ℕ
  pub selected_connection : Option ℕ
  pub modal : Option Modal

abbrev pub default_app : App
default_app = record {
  status = none;
  services = [];
  forwards = [];
  connections = [];
  focus = Pane.services;
  compact_focus = on_routes;
  compact_routes = services_view;
  selected_service = none;
  selected_forward = none;
  selected_connection = none;
  modal = none;
}

unfoldable pub layout_mode_for_dimensions : ℕ → ℕ → LayoutMode
layout_mode_for_dimensions width height = if ltb width 160 || ltb height 36 then compact else full

unfoldable pub clamp_selection : Option ℕ → ℕ → Option ℕ
clamp_selection none len = if nat_eq len 0 then none else some (min 0 (len - 1))
clamp_selection (some i) len = if nat_eq len 0 then none else some (min i (len - 1))

unfoldable pub move_selection_prev : Option ℕ → ℕ → Option ℕ
move_selection_prev none len = if nat_eq len 0 then none else some 0
move_selection_prev (some current) len =
    if nat_eq len 0 then none else if ltb 0 current then some (current - 1) else some 0

unfoldable pub move_selection_next : Option ℕ → ℕ → Option ℕ
move_selection_next none len = if nat_eq len 0 then none else some 0
move_selection_next (some current) len =
    if nat_eq len 0
    then none
    else if ltb (current + 1) len
    then some (current + 1)
    else some current

unfoldable pub apply_snapshot : Snapshot → App → App
unfolding sort_by text_lt clamp_selection
apply_snapshot snapshot app = record app {
  status = snapshot.status;
  services = sort_by (λ a b. text_lt a.name b.name) snapshot.services;
  forwards = sort_by (λ a b. text_lt a.listen b.listen) snapshot.forwards;
  connections = sort_by (λ a b. ltb b.id a.id) snapshot.connections;
  selected_service =
      clamp_selection app.selected_service
        (length (sort_by (λ a b. text_lt a.name b.name) snapshot.services));
  selected_forward =
      clamp_selection app.selected_forward
        (length (sort_by (λ a b. text_lt a.listen b.listen) snapshot.forwards));
  selected_connection =
      clamp_selection app.selected_connection
        (length (sort_by (λ a b. ltb b.id a.id) snapshot.connections));
}

unfoldable pub set_error : Text → App → App
set_error body app = record app { modal = some (message (text "Error") body) }

unfoldable pub set_info : Text → App → App
set_info body app = record app { modal = some (message (text "Info") body) }

abbrev pub pane_of : CompactFocus → RoutesView → Pane
pane_of on_routes view = as_pane view
pane_of on_connections view = Pane.connections

unfoldable pub active_pane : LayoutMode → App → Pane
unfolding as_pane
active_pane full app = app.focus
active_pane compact app = pane_of app.compact_focus app.compact_routes

abbrev pub focus_compact : Pane → App → App
focus_compact Pane.services app = record app {
  compact_focus = on_routes;
  compact_routes = services_view;
}
focus_compact Pane.forwards app = record app {
  compact_focus = on_routes;
  compact_routes = forwards_view;
}
focus_compact Pane.connections app = record app { compact_focus = on_connections }

unfoldable pub sync_compact_from_focus : App → App
sync_compact_from_focus app = focus_compact app.focus app

unfoldable pub sync_focus_from_compact : App → App
unfolding active_pane
sync_focus_from_compact app = record app { focus = active_pane compact app }

unfoldable pub open_add_dialog : Pane → App → App
open_add_dialog Pane.services app = record app {
  modal = some (add_service (record { name = []; target = []; persist = false; field = 0 }));
}
open_add_dialog Pane.forwards app = record app {
  modal = some (add_forward (record { listen = []; remote = []; persist = false; field = 0 }));
}
open_add_dialog Pane.connections app = app

abbrev pub selected : {A : Type 0} → Option ℕ → List A → Option A
selected none items = none
selected (some i) items = get_elem? items i

-- A dialog for the selected entry, if there is one.
abbrev pub open_for : {A : Type 0} → (A → Modal) → Option A → App → App
open_for dialog none app = app
open_for dialog (some entry) app = record app { modal = some (dialog entry) }

abbrev pub removal : ForwardRoute → RemoveForwardDialog
removal forward = record {
  listen = forward.listen;
  remote = forward.remote;
  remove_persistently = forward.persisted;
}

unfoldable pub open_remove_dialog : Pane → App → App
open_remove_dialog Pane.services app =
    open_for (λ service. remove_service service.name) (selected app.selected_service app.services)
      app
open_remove_dialog Pane.forwards app =
    open_for (λ forward. remove_forward (removal forward))
      (selected app.selected_forward app.forwards) app
open_remove_dialog Pane.connections app = app

unfoldable pub move_selection_up : Pane → App → App
unfolding move_selection_prev
move_selection_up Pane.services app = record app {
  selected_service = move_selection_prev app.selected_service (length app.services);
}
move_selection_up Pane.forwards app = record app {
  selected_forward = move_selection_prev app.selected_forward (length app.forwards);
}
move_selection_up Pane.connections app = record app {
  selected_connection = move_selection_prev app.selected_connection (length app.connections);
}

unfoldable pub move_selection_down : Pane → App → App
unfolding move_selection_next
move_selection_down Pane.services app = record app {
  selected_service = move_selection_next app.selected_service (length app.services);
}
move_selection_down Pane.forwards app = record app {
  selected_forward = move_selection_next app.selected_forward (length app.forwards);
}
move_selection_down Pane.connections app = record app {
  selected_connection = move_selection_next app.selected_connection (length app.connections);
}

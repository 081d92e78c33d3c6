-- ===== src/Tui/Consistent.antt =====
-- src/tui.rs: what holds of the interface's state whatever keys are pressed and snapshots arrive.
use iroh_proxy.Common.{ℕ, ◌<◌, ◌≡◌, refl, Option, none, some, length, arith, ltb}
use iroh_proxy.Tui.Sorting.{
  text_lt, Ordered, sort_by-Ordered, text_lt-Compares, descending-Compares,
}
use iroh_proxy.Tui.App.{
  Pane, App, default_app, Snapshot, Modal, full, compact, CompactFocus, RoutesView, pane_of,
  clamp_selection, move_selection_prev, move_selection_next, apply_snapshot, active_pane,
  open_add_dialog, open_remove_dialog, open_for, move_selection_up, move_selection_down,
}

-- A selection is an index of the list, or there is nothing to select.
abbrev pub Fits : Option ℕ → ℕ → Type 0
Fits none len = len ≡ 0
Fits (some i) len = i < len

pub record Consistent (app : App) : Type 0 where
  pub in_sync : active_pane compact app ≡ active_pane full app
  pub service_fits : Fits app.selected_service (length app.services)
  pub forward_fits : Fits app.selected_forward (length app.forwards)
  pub connection_fits : Fits app.selected_connection (length app.connections)
  pub services_ordered : Ordered (λ a b. text_lt a.name b.name) app.services
  pub forwards_ordered : Ordered (λ a b. text_lt a.listen b.listen) app.forwards
  pub connections_ordered : Ordered (λ a b. ltb b.id a.id) app.connections

clamp_selection-Fits : (sel : Option ℕ) (len : ℕ) → Fits (clamp_selection sel len) len
unfolding clamp_selection
clamp_selection-Fits none len = ground arith
clamp_selection-Fits (some i) len = ground arith

move_selection_prev-Fits :
    (sel : Option ℕ) (len : ℕ) → Fits sel len → Fits (move_selection_prev sel len) len
unfolding move_selection_prev
move_selection_prev-Fits none len h = ground arith
move_selection_prev-Fits (some i) len h = ground arith

move_selection_next-Fits :
    (sel : Option ℕ) (len : ℕ) → Fits sel len → Fits (move_selection_next sel len) len
unfolding move_selection_next
move_selection_next-Fits none len h = ground arith
move_selection_next-Fits (some i) len h = ground arith

pub default_app-Consistent : Consistent default_app
unfolding active_pane
default_app-Consistent = record {
  in_sync = refl;
  service_fits = refl;
  forward_fits = refl;
  connection_fits = refl;
  services_ordered = tt;
  forwards_ordered = tt;
  connections_ordered = tt;
}

module _ {app : App} (h : Consistent app) where
  pub with_modal : (m : Option Modal) → Consistent (record app { modal = m })
  unfolding active_pane
  with_modal m = record {
    in_sync = h.in_sync;
    service_fits = h.service_fits;
    forward_fits = h.forward_fits;
    connection_fits = h.connection_fits;
    services_ordered = h.services_ordered;
    forwards_ordered = h.forwards_ordered;
    connections_ordered = h.connections_ordered;
  }

  pub with_panes :
      (focus : Pane) (compact_focus : CompactFocus) (compact_routes : RoutesView)
      → pane_of compact_focus compact_routes ≡ focus
      → Consistent (record app {
        focus = focus;
        compact_focus = compact_focus;
        compact_routes = compact_routes;
      })
  unfolding active_pane
  with_panes focus compact_focus compact_routes same = record {
    in_sync = same;
    service_fits = h.service_fits;
    forward_fits = h.forward_fits;
    connection_fits = h.connection_fits;
    services_ordered = h.services_ordered;
    forwards_ordered = h.forwards_ordered;
    connections_ordered = h.connections_ordered;
  }

  with_selections :
      (s f c : Option ℕ)
      → Fits s (length app.services)
      → Fits f (length app.forwards)
      → Fits c (length app.connections)
      → Consistent
          (record app { selected_service = s; selected_forward = f; selected_connection = c })
  unfolding active_pane
  with_selections s f c service forward connection = record {
    in_sync = h.in_sync;
    service_fits = service;
    forward_fits = forward;
    connection_fits = connection;
    services_ordered = h.services_ordered;
    forwards_ordered = h.forwards_ordered;
    connections_ordered = h.connections_ordered;
  }

  pub apply_snapshot-Consistent : (snapshot : Snapshot) → Consistent (apply_snapshot snapshot app)
  unfolding apply_snapshot active_pane
  apply_snapshot-Consistent snapshot = record {
    in_sync = h.in_sync;
    service_fits = clamp_selection-Fits app.selected_service _;
    forward_fits = clamp_selection-Fits app.selected_forward _;
    connection_fits = clamp_selection-Fits app.selected_connection _;
    services_ordered = sort_by-Ordered _ (text_lt-Compares λ a. a.name) snapshot.services;
    forwards_ordered = sort_by-Ordered _ (text_lt-Compares λ a. a.listen) snapshot.forwards;
    connections_ordered = sort_by-Ordered _ (descending-Compares λ a. a.id) snapshot.connections;
  }

  pub open_add_dialog-Consistent : (pane : Pane) → Consistent (open_add_dialog pane app)
  unfolding open_add_dialog
  open_add_dialog-Consistent Pane.services = with_modal _
  open_add_dialog-Consistent Pane.forwards = with_modal _
  open_add_dialog-Consistent Pane.connections = h

  open_for-Consistent :
      {A : Type 0} (dialog : A → Modal) (entry : Option A) → Consistent (open_for dialog entry app)
  open_for-Consistent dialog none = h
  open_for-Consistent dialog (some entry) = with_modal _

  pub open_remove_dialog-Consistent : (pane : Pane) → Consistent (open_remove_dialog pane app)
  unfolding open_remove_dialog
  open_remove_dialog-Consistent Pane.services = open_for-Consistent _ _
  open_remove_dialog-Consistent Pane.forwards = open_for-Consistent _ _
  open_remove_dialog-Consistent Pane.connections = h

  pub move_selection_up-Consistent : (pane : Pane) → Consistent (move_selection_up pane app)
  unfolding move_selection_up
  move_selection_up-Consistent Pane.services =
      with_selections _ _ _ (move_selection_prev-Fits _ _ h.service_fits) h.forward_fits
        h.connection_fits
  move_selection_up-Consistent Pane.forwards =
      with_selections _ _ _ h.service_fits (move_selection_prev-Fits _ _ h.forward_fits)
        h.connection_fits
  move_selection_up-Consistent Pane.connections =
      with_selections _ _ _ h.service_fits h.forward_fits
        (move_selection_prev-Fits _ _ h.connection_fits)

  pub move_selection_down-Consistent : (pane : Pane) → Consistent (move_selection_down pane app)
  unfolding move_selection_down
  move_selection_down-Consistent Pane.services =
      with_selections _ _ _ (move_selection_next-Fits _ _ h.service_fits) h.forward_fits
        h.connection_fits
  move_selection_down-Consistent Pane.forwards =
      with_selections _ _ _ h.service_fits (move_selection_next-Fits _ _ h.forward_fits)
        h.connection_fits
  move_selection_down-Consistent Pane.connections =
      with_selections _ _ _ h.service_fits h.forward_fits
        (move_selection_next-Fits _ _ h.connection_fits)

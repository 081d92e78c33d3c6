-- ===== src/Tui/Sessions.antt =====
-- src/tui.rs: the states that a session of the interface goes through.
use iroh_proxy.Common.{
  ℕ, zero, suc, ◌<◌, ◌≡◌, refl, ap, Bool, true, Option, none, some, List, [], ◌∷◌, length, arith,
  get_elem?, is_some, if◌then◌else◌,
}
use iroh_proxy.Control.{ForwardRoute}
use iroh_proxy.Tui.App.{
  Pane, App, default_app, Snapshot, Modal, LayoutMode, full, compact, CompactFocus, on_routes,
  on_connections, next, prev, as_pane, apply_snapshot, active_pane, focus_compact,
  sync_focus_from_compact, open_add_dialog, open_remove_dialog, open_for, selected, removal,
  remove_forward,
}
use iroh_proxy.Tui.Keys.{
  KeyCode, char, tab, back_tab, up, down, left, right, enter, esc, backspace, other, KeyAction,
  continue, start_backend, handle_char, handle_non_modal_key, turn_routes,
}
use iroh_proxy.Tui.Consistent.{
  Fits, Consistent, default_app-Consistent, with_modal, with_panes, apply_snapshot-Consistent,
  open_add_dialog-Consistent, open_remove_dialog-Consistent, move_selection_up-Consistent,
  move_selection_down-Consistent,
}

-- The changes of the state: a snapshot of the server's state, a key while no dialog is open, and the
-- dialog that a key in a dialog leaves, or the message that it ends with.
pub data Step (app : App) : App → Type 0 where
  refreshed : (snapshot : Snapshot) → Step app (apply_snapshot snapshot app)
  pressed :
      (key : KeyCode) (layout_mode : LayoutMode)
      → app.modal ≡ none
      → Step app (handle_non_modal_key key layout_mode app).1
  dialog_changed : (modal : Option Modal) → Step app (record app { modal = modal })

pub data Reach : App → Type 0 where
  start : Reach default_app
  step : {app later : App} → Reach app → Step app later → Reach later

focus_compact-Consistent :
    {app : App}
    → Consistent app
    → (pane : Pane) → Consistent (focus_compact pane (record app { focus = pane }))
unfolding as_pane
focus_compact-Consistent h Pane.services = with_panes h _ _ _ refl
focus_compact-Consistent h Pane.forwards = with_panes h _ _ _ refl
focus_compact-Consistent h Pane.connections = with_panes h _ _ _ refl

turn_routes-Consistent :
    {app : App}
    → Consistent app
    → (on : CompactFocus) → app.compact_focus ≡ on
    → Consistent (turn_routes on app)
unfolding sync_focus_from_compact active_pane
turn_routes-Consistent h on_routes same = with_panes h _ _ _ refl
turn_routes-Consistent h on_connections same = h

pub handle_char_cases :
    (c : ℕ) (layout_mode : LayoutMode) (app : App) (P : KeyAction × App → Type 0)
    → ((action : KeyAction) → P (action, app))
    → P (continue, open_add_dialog (active_pane layout_mode app) app)
    → P (continue, open_remove_dialog (active_pane layout_mode app) app)
    → P (handle_char c layout_mode app)
unfolding handle_char
handle_char_cases c layout_mode app P same add remove = ground (
  arith,
  same continue,
  same KeyAction.quit,
  same KeyAction.refresh,
  same start_backend,
  add,
  remove,
)

pub handle_non_modal_key-Consistent :
    {app : App}
    → Consistent app
    → (key : KeyCode) (layout_mode : LayoutMode)
    → Consistent (handle_non_modal_key key layout_mode app).1
unfolding handle_non_modal_key
handle_non_modal_key-Consistent {app} h (char c) layout_mode =
    handle_char_cases c layout_mode app (λ (action, later). Consistent later) (λ action. h)
      (open_add_dialog-Consistent h _) (open_remove_dialog-Consistent h _)
handle_non_modal_key-Consistent h up layout_mode = move_selection_up-Consistent h _
handle_non_modal_key-Consistent h down layout_mode = move_selection_down-Consistent h _
handle_non_modal_key-Consistent {app} h tab full = focus_compact-Consistent h (next app.focus)
handle_non_modal_key-Consistent {app} h back_tab full = focus_compact-Consistent h (prev app.focus)
handle_non_modal_key-Consistent h tab compact = with_panes h _ _ _ refl
handle_non_modal_key-Consistent h back_tab compact = with_panes h _ _ _ refl
handle_non_modal_key-Consistent h left compact = turn_routes-Consistent h _ refl
handle_non_modal_key-Consistent h right compact = turn_routes-Consistent h _ refl
handle_non_modal_key-Consistent h left full = h
handle_non_modal_key-Consistent h right full = h
handle_non_modal_key-Consistent h enter layout_mode = h
handle_non_modal_key-Consistent h esc layout_mode = h
handle_non_modal_key-Consistent h backspace layout_mode = h
handle_non_modal_key-Consistent h other layout_mode = h

Step-Consistent : {app later : App} → Consistent app → Step app later → Consistent later
Step-Consistent h (refreshed snapshot) = apply_snapshot-Consistent h snapshot
Step-Consistent h (pressed key layout_mode closed) =
    handle_non_modal_key-Consistent h key layout_mode
Step-Consistent h (dialog_changed modal) = with_modal h modal

-- In every state that a session reaches from the start, the two layouts agree on the active pane,
-- each selection is an index of its list or the list is empty, the services and the forwards are
-- ordered by name and listen address and the connections by falling id.
pub Reach-Consistent : {app : App} → Reach app → Consistent app
Reach-Consistent start = default_app-Consistent
Reach-Consistent (step reach s) = Step-Consistent (Reach-Consistent reach) s

get_elem?-present :
    {A : Type 0} (i : ℕ) (items : List A)
    → i < length items
    → (a : A) × (get_elem? items i ≡ some a)
get_elem?-present i [] h = ground arith
get_elem?-present zero (x ∷ xs) h = (x, refl)
get_elem?-present (suc i) (x ∷ xs) h = get_elem?-present i xs (omega (arith, h))

pub selected-present :
    {A : Type 0} (sel : Option ℕ) (items : List A)
    → Fits sel (length items)
    → 0 < length items
    → (a : A) × (selected sel items ≡ some a)
selected-present none items h present = ground arith
selected-present (some i) items h present = get_elem?-present i items h

-- In a state that a session reaches, with the server running and some forward listed, `d` on the
-- forwards opens the dialog that removes the selected one, from the configuration too if it is
-- persisted there, in either layout.
pub remove_key_on_forwards :
    {app : App} (layout_mode : LayoutMode)
    → Reach app
    → is_some app.status ≡ true
    → active_pane layout_mode app ≡ Pane.forwards
    → 0 < length app.forwards
    → (forward : ForwardRoute) × (selected app.selected_forward app.forwards ≡ some forward)
      × (handle_non_modal_key (char b'd') layout_mode app
          ≡ (continue, record app { modal = some (remove_forward (removal forward)) }))
unfolding handle_non_modal_key open_remove_dialog
remove_key_on_forwards {app} layout_mode reach running pane present =
    let (forward, eq) =
      selected-present app.selected_forward app.forwards (Reach-Consistent reach).forward_fits
        present in
    (
      forward,
      eq,
      pressed_d (is_some app.status) (active_pane layout_mode app) running pane forward eq,
    )
  where
    pressed_d :
        (is_running : Bool) (on : Pane)
        → is_running ≡ true
        → on ≡ Pane.forwards
        → (forward : ForwardRoute) → selected app.selected_forward app.forwards ≡ some forward
        → ◌≡◌ {A = KeyAction × App}
            (continue, if is_running then open_remove_dialog on app else app)
            (continue, record app { modal = some (remove_forward (removal forward)) })
    pressed_d is_running on running pane forward eq =
        rw (running, pane)
          (ap (λ o. (continue, open_for (λ f. remove_forward (removal f)) o app)) eq)

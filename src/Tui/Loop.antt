-- ===== src/Tui/Loop.antt =====
-- src/tui.rs: a key, `handle_key`, and the event loop, `run_tui_loop`. The terminal and the input
-- thread are crossterm's; a state of the world is the server and the disk.
use iroh_proxy.Common.{
  ℕ, Bool, true, false, Option, none, some, List, [], ◌∷◌, ◌++◌, Result, ok, err, if◌then◌else◌,
}
use iroh_proxy.Common.Text.{Text, text}
use iroh_proxy.RemotePath.{Iroh}
use iroh_proxy.Config.Files.{Toml, Os}
use iroh_proxy.Commands.Persistent.{
  World, CommandError, required, invalid_remote_path, call_failed, persist_failed, update_failed,
  not_connected, not_reached,
}
use iroh_proxy.Commands.Starting.{StartError}
use iroh_proxy.Tui.App.{
  App, Modal, Snapshot, LayoutMode, layout_mode_for_dimensions, apply_snapshot, set_info, set_error,
  default_app,
}
use iroh_proxy.Tui.Keys.{KeyCode, KeyAction, continue, quit, start_backend, handle_non_modal_key}
use iroh_proxy.Tui.Dialogs.{
  Info, removed_service, added_service, added_forward, removed_forward, ModalOutcome, stay, close,
  show_info, show_error, Link, linked, unconnected, unreachable, handle_modal_key,
}
use iroh_proxy.Tui.Fetch.{Replies, fetch_snapshot, get_or_connect_control_client}

abbrev pub if_persisted : Bool → Text
if_persisted persist = if persist then text " (persisted)" else []

-- The texts of the messages.
unfoldable pub show : Info → Text
show (removed_service name) = text "Removed service: " ++ name
show (added_service name target persist) =
    text "Added service: " ++ (name ++ (text " -> " ++ (target ++ if_persisted persist)))
show (added_forward listen remote persist) =
    text "Added forward: " ++ (listen ++ (text " -> " ++ (remote ++ if_persisted persist)))
show (removed_forward listen remote persistently) =
    text "Removed forward: "
    ++ (listen
        ++ (text " -> "
            ++ (remote
                ++ (if persistently then text " (runtime + config)" else text " (runtime only)"))))

-- What the loop waits for: a tick of the fallback timer, a key with the size of the terminal, or the
-- end of the input thread.
pub data Event : Type 0 where
  tick : Event
  pressed : KeyCode → Bool → ℕ → ℕ → Event
  input_ended : Event

-- Whether the client was asked for before the error.
abbrev pub is_called : CommandError → Bool
is_called required = false
is_called (invalid_remote_path e) = false
is_called (call_failed e) = true
is_called (persist_failed e rollback) = true
is_called (update_failed e) = true
is_called not_connected = true
is_called not_reached = true

-- What surrounds the interface: the replies of the server, if one runs, whether a dialog's call
-- through a client reaches it, how a start of the server ends, the world after it, and the
-- formatting of errors.
pub record Outside (EndpointId : Type 0) : Type 0 where
  pub replies : World EndpointId → Replies
  pub reaches : World EndpointId → Bool
  pub start : World EndpointId → Result StartError Bool
  pub after_start : World EndpointId → World EndpointId
  pub format_command : CommandError → Text
  pub format_start : StartError → Text

-- The variables of the loop, and the world.
pub record Session (EndpointId : Type 0) : Type 0 where
  pub app : App
  pub kept_client : Bool
  pub world : World EndpointId

module _ {EndpointId : Type 0} (outside : Outside EndpointId) where
  abbrev pub fetched : Snapshot × Bool → Session EndpointId → Session EndpointId
  fetched (snapshot, kept) s = record s { app = apply_snapshot snapshot s.app; kept_client = kept }

  unfoldable pub refresh : Session EndpointId → Session EndpointId
  unfolding fetch_snapshot apply_snapshot
  refresh s = fetched (fetch_snapshot (outside.replies s.world) s.kept_client) s

  abbrev pub on_app : (App → App) → Session EndpointId → Session EndpointId
  on_app f s = record s { app = f s.app }

  abbrev pub link_of : Session EndpointId → Link
  link_of s =
      if get_or_connect_control_client (outside.replies s.world).transport.connects s.kept_client
      then if outside.reaches s.world then linked else unreachable
      else unconnected

  -- A dialog's call connects a client if none is kept.
  abbrev pub calling : Bool → World EndpointId → Session EndpointId → Session EndpointId
  calling called world s = record s {
    kept_client =
        if called
        then get_or_connect_control_client (outside.replies s.world).transport.connects
            s.kept_client
        else s.kept_client;
    world = world;
  }

  -- The outcome of a key in a dialog, which was taken out of the state.
  abbrev pub after_modal :
      Session EndpointId → ModalOutcome × Modal × World EndpointId → Session EndpointId
  after_modal s (stay, modal, world) =
      on_app (λ app. record app { modal = some modal }) (calling false world s)
  after_modal s (close, modal, world) = refresh (calling false world s)
  after_modal s (show_info info, modal, world) =
      on_app (set_info (show info)) (refresh (calling true world s))
  after_modal s (show_error e, modal, world) =
      on_app (set_error (outside.format_command e)) (calling (is_called e) world s)

  abbrev pub after_start_backend : Result StartError Bool → Session EndpointId → Session EndpointId
  after_start_backend (ok true) s = on_app (set_info (text "Started backend server")) (refresh s)
  after_start_backend (ok false) s =
      on_app (set_info (text "Backend is already running")) (refresh s)
  after_start_backend (err e) s = on_app (set_error (outside.format_start e)) s

  -- The result is whether the interface ends.
  abbrev pub after_key : KeyAction × App → Session EndpointId → Bool × Session EndpointId
  after_key (quit, app) s = (true, record s { app = app })
  after_key (KeyAction.refresh, app) s = (false, refresh (record s { app = app }))
  after_key (start_backend, app) s = (
    false,
    after_start_backend (outside.start s.world)
        (record s { app = app; world = outside.after_start s.world }),
  )
  after_key (continue, app) s = (false, record s { app = app })

  abbrev pub opened : World EndpointId → Session EndpointId
  opened world = record { app = default_app; kept_client = false; world = world }

  module _ ⦃iroh : Iroh EndpointId⦄ ⦃toml : Toml⦄ (os : Os) (bind : Text → Bool)
      (config_path : Text) where
    abbrev pub handle_key_in :
        Option Modal → KeyCode → Bool → LayoutMode → Session EndpointId → Bool × Session EndpointId
    handle_key_in (some modal) key control layout_mode s = (
      false,
      after_modal (on_app (λ app. record app { modal = none }) s)
          (handle_modal_key os bind config_path (link_of s) modal key control s.world),
    )
    handle_key_in none key control layout_mode s =
        after_key (handle_non_modal_key key layout_mode s.app) s

    unfoldable pub handle_key :
        KeyCode → Bool → LayoutMode → Session EndpointId → Bool × Session EndpointId
    unfolding refresh show handle_modal_key handle_non_modal_key set_info set_error
    handle_key key control layout_mode s = handle_key_in s.app.modal key control layout_mode s

    -- One round of the loop, and whether it ends with it.
    unfoldable pub loop_step : Event → Session EndpointId → Bool × Session EndpointId
    unfolding refresh handle_key layout_mode_for_dimensions
    loop_step tick s = (false, refresh s)
    loop_step (pressed key control width height) s =
        handle_key key control (layout_mode_for_dimensions width height) s
    loop_step input_ended s = (true, s)

    -- What happens for the events that arrive, each in the world found at its time, in which other
    -- processes may have taken steps.
    abbrev pub run_next :
        (Session EndpointId → Bool × Session EndpointId)
        → Bool × Session EndpointId
        → Bool × Session EndpointId
    run_next rest (ended, s) = if ended then (true, s) else rest s

    unfoldable pub run_events :
        List (World EndpointId × Event) → Session EndpointId → Bool × Session EndpointId
    unfolding loop_step
    run_events [] s = (false, s)
    run_events ((world, event) ∷ events) s =
        run_next (λ s. run_events events s) (loop_step event (record s { world = world }))

    unfoldable pub run_tui_loop :
        World EndpointId → List (World EndpointId × Event) → Bool × Session EndpointId
    unfolding run_events refresh
    run_tui_loop world events = run_events events (refresh (opened world))

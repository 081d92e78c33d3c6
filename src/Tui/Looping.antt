-- ===== src/Tui/Looping.antt =====
-- src/tui.rs: what holds in every round of the event loop.
use iroh_proxy.Common.{
  ◌≡◌, refl, Bool, true, false, Option, none, some, List, [], ◌∷◌, Result, ok, err, if_cases,
  if◌then◌else◌, arith,
}
use iroh_proxy.Common.Text.{Text}
use iroh_proxy.RemotePath.{Iroh}
use iroh_proxy.Config.Files.{Toml, Os}
use iroh_proxy.Daemon.Service.{Status}
use iroh_proxy.Control.{ServeRoute, ForwardRoute, ActiveConnection}
use iroh_proxy.Commands.Persistent.{World}
use iroh_proxy.Commands.Starting.{StartError}
use iroh_proxy.Tui.App.{
  App, Snapshot, layout_mode_for_dimensions, Modal, LayoutMode, apply_snapshot, set_info, set_error,
  message,
}
use iroh_proxy.Tui.Keys.{KeyCode, KeyAction, continue, quit, start_backend, handle_non_modal_key}
use iroh_proxy.Tui.Dialogs.{ModalOutcome, stay, close, show_info, show_error}
use iroh_proxy.Tui.Fetch.{
  Replies, disconnected, fetch_snapshot, get_or_connect_control_client, with_connections,
  with_forwards, with_services, with_status,
}
use iroh_proxy.Tui.Consistent.{
  Consistent, default_app-Consistent, with_modal, apply_snapshot-Consistent,
}
use iroh_proxy.Tui.Sessions.{handle_non_modal_key-Consistent}
use iroh_proxy.Tui.Fields.{handle_modal_key-FieldFits}
use iroh_proxy.Tui.Moves.{FieldFits, handle_non_modal_key-Moved}
use iroh_proxy.Tui.Loop.{
  Event, tick, pressed, input_ended, is_called, link_of, Outside, Session, refresh, opened,
  after_modal, after_key, after_start_backend, handle_key, handle_key_in, run_next, loop_step,
  run_events, run_tui_loop,
}

abbrev pub Blank : App → Type 0
Blank app = (app.services ≡ []) × (app.forwards ≡ []) × (app.connections ≡ [])

-- Without a status nothing is listed; with one the client is kept.
abbrev pub Told : Option Status → Type 0 → Bool → Type 0
Told none blank kept = blank
Told (some status) blank kept = kept ≡ true

pub record Sound {EndpointId : Type 0} (s : Session EndpointId) : Type 0 where
  pub consistent : Consistent s.app
  pub told : Told s.app.status (Blank s.app) s.kept_client
  pub field : FieldFits s.app.modal

abbrev answered : Status → List ServeRoute → List ForwardRoute → List ActiveConnection → Snapshot
answered status services forwards connections = record {
  status = some status;
  services = services;
  forwards = forwards;
  connections = connections;
}

-- All calls give their lists, or the snapshot is empty and no client is kept.
module _ (P : Snapshot × Bool → Type 0) (nothing : P (disconnected, false))
    (all : (status : Status) (services : List ServeRoute) (forwards : List ForwardRoute)
        (connections : List ActiveConnection)
      → P (answered status services forwards connections, true)) where
  with_connections_cases :
      (status : Status) (services : List ServeRoute) (forwards : List ForwardRoute)
      (reply : Option (List ActiveConnection))
      → P (with_connections status services forwards reply)
  with_connections_cases status services forwards none = nothing
  with_connections_cases status services forwards (some connections) =
      all status services forwards connections

  with_forwards_cases :
      (replies : Replies) (status : Status) (services : List ServeRoute)
      (reply : Option (List ForwardRoute))
      → P (with_forwards replies status services reply)
  with_forwards_cases replies status services none = nothing
  with_forwards_cases replies status services (some forwards) =
      with_connections_cases status services forwards _

  with_services_cases :
      (replies : Replies) (status : Status) (reply : Option (List ServeRoute))
      → P (with_services replies status reply)
  with_services_cases replies status none = nothing
  with_services_cases replies status (some services) = with_forwards_cases replies status services _

  with_status_cases : (replies : Replies) (reply : Option Status) → P (with_status replies reply)
  with_status_cases replies none = nothing
  with_status_cases replies (some status) = with_services_cases replies status _

  fetch_snapshot_cases : (replies : Replies) (kept : Bool) → P (fetch_snapshot replies kept)
  unfolding fetch_snapshot
  fetch_snapshot_cases replies kept =
      if_cases P (get_or_connect_control_client replies.transport.connects kept)
        (λ e. with_status_cases replies _) (λ e. nothing)

module _ {EndpointId : Type 0} (outside : Outside EndpointId) where
  refresh-Sound :
      (s : Session EndpointId)
      → Consistent s.app
      → FieldFits s.app.modal
      → Sound (refresh outside s)
  unfolding refresh apply_snapshot
  refresh-Sound s consistent field =
      fetch_snapshot_cases
        (λ (snapshot, kept).
          Sound (record s { app = apply_snapshot snapshot s.app; kept_client = kept }))
        (record {
          consistent = apply_snapshot-Consistent consistent disconnected;
          told = (refl, refl, refl);
          field = field;
        })
        (λ status services forwards connections. record {
          consistent =
              apply_snapshot-Consistent consistent (answered status services forwards connections);
          told = refl;
          field = field;
        })
        (outside.replies s.world) s.kept_client

  after_call-Told :
      (status : Option Status) (blank : Type 0) (kept called connects : Bool)
      → Told status blank kept
      → Told status blank (if called then get_or_connect_control_client connects kept else kept)
  unfolding get_or_connect_control_client
  after_call-Told none blank kept called connects h = h
  after_call-Told (some status) blank kept called connects h = ground arith

  message-Sound :
      {s : Session EndpointId}
      → Sound s
      → (title body : Text)
      → Sound (record s { app = record s.app { modal = some (message title body) } })
  message-Sound h title body = record {
    consistent = with_modal h.consistent _;
    told = h.told;
    field = tt;
  }

  with_world :
      {s : Session EndpointId}
      → Sound s
      → (world : World EndpointId) → Sound (record s { world = world })
  with_world h world = record { consistent = h.consistent; told = h.told; field = h.field }

  after_modal-Sound :
      (s : Session EndpointId) (outcome : ModalOutcome × Modal × World EndpointId)
      → Sound s
      → FieldFits (some outcome.1)
      → Sound (after_modal outside (record s { app = record s.app { modal = none } }) outcome)
  unfolding set_info set_error
  after_modal-Sound s (stay, modal, world) h fits = record {
    consistent = with_modal h.consistent _;
    told = h.told;
    field = fits;
  }
  after_modal-Sound s (close, modal, world) h fits =
      refresh-Sound _ (with_modal h.consistent none) tt
  after_modal-Sound s (show_info info, modal, world) h fits =
      message-Sound (refresh-Sound _ (with_modal h.consistent none) tt) _ _
  after_modal-Sound s (show_error e, modal, world) h fits = record {
    consistent = with_modal h.consistent _;
    told = after_call-Told s.app.status (Blank s.app) s.kept_client (is_called e) _ h.told;
    field = tt;
  }

  after_key-Sound :
      (s : Session EndpointId) (action : KeyAction) (app : App)
      → Sound (record s { app = app })
      → Sound (after_key outside (action, app) s).1
  unfolding set_info set_error
  after_key-Sound s quit app h = h
  after_key-Sound s continue app h = h
  after_key-Sound s KeyAction.refresh app h = refresh-Sound _ h.consistent h.field
  after_key-Sound s start_backend app h = after_start (outside.start s.world)
    where
      after_start :
          (r : Result StartError Bool)
          → Sound (
              after_start_backend outside r
                (record s { app = app; world = outside.after_start s.world }))
      after_start (ok true) = message-Sound (refresh-Sound _ h.consistent h.field) _ _
      after_start (ok false) = message-Sound (refresh-Sound _ h.consistent h.field) _ _
      after_start (err e) = message-Sound (with_world h (outside.after_start s.world)) _ _

module _ {EndpointId : Type 0} ⦃iroh : Iroh EndpointId⦄ ⦃toml : Toml⦄ (outside : Outside EndpointId)
    (os : Os) (bind : Text → Bool) (config_path : Text) where
  handle_key-Sound :
      (key : KeyCode) (control : Bool) (layout_mode : LayoutMode) (s : Session EndpointId)
      → Sound s
      → Sound (handle_key outside os bind config_path key control layout_mode s).1
  unfolding handle_key
  handle_key-Sound key control layout_mode s h = in_modal s.app.modal h.field
    where
      in_modal :
          (modal : Option Modal)
          → FieldFits modal
          → Sound (handle_key_in outside os bind config_path modal key control layout_mode s).1
      in_modal (some modal) field = after_modal-Sound outside s _ h (
          handle_modal_key-FieldFits os bind config_path (link_of outside s) modal key control
            s.world field)
      in_modal none field =
          let moved = handle_non_modal_key-Moved {app = s.app} key layout_mode in
          after_key-Sound outside s (handle_non_modal_key key layout_mode s.app).0 _ (record {
            consistent = handle_non_modal_key-Consistent h.consistent key layout_mode;
            told = rw (moved.status, moved.services, moved.forwards, moved.connections) h.told;
            field = moved.field h.field;
          })

  loop_step-Sound :
      (event : Event) (s : Session EndpointId)
      → Sound s
      → Sound (loop_step outside os bind config_path event s).1
  unfolding loop_step
  loop_step-Sound tick s h = refresh-Sound outside s h.consistent h.field
  loop_step-Sound (pressed key control width height) s h =
      handle_key-Sound key control (layout_mode_for_dimensions width height) s h
  loop_step-Sound input_ended s h = h

  run_next-Sound :
      (rest : Session EndpointId → Bool × Session EndpointId)
      → ((s : Session EndpointId) → Sound s → Sound (rest s).1)
      → (r : Bool × Session EndpointId) → Sound r.1
      → Sound (run_next outside os bind config_path rest r).1
  run_next-Sound rest keeps (true, s) h = h
  run_next-Sound rest keeps (false, s) h = keeps s h

  run_events-Sound :
      (events : List (World EndpointId × Event)) (s : Session EndpointId)
      → Sound s
      → Sound (run_events outside os bind config_path events s).1
  unfolding run_events
  run_events-Sound [] s h = h
  run_events-Sound ((world, event) ∷ events) s h =
      run_next-Sound (run_events outside os bind config_path events) (run_events-Sound events) _
        (loop_step-Sound event (record s { world = world }) (with_world outside h world))

  -- Whatever keys are pressed, and however the server and the disk change meanwhile, after any
  -- number of rounds of the loop: the two layouts agree on the active pane, each selection is an
  -- index of its list or the list is empty, and the lists are ordered. Without a status of the
  -- server nothing is listed, and with one the client that gave it is kept for the next query. A
  -- dialog that adds a rule has the focus on one of its three fields.
  pub run_tui_loop-Sound :
      (world : World EndpointId) (events : List (World EndpointId × Event))
      → Sound (run_tui_loop outside os bind config_path world events).1
  unfolding run_tui_loop
  run_tui_loop-Sound world events =
      run_events-Sound events (refresh outside (opened outside world))
        (refresh-Sound outside (opened outside world) default_app-Consistent tt)

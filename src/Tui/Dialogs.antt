-- ===== src/Tui/Dialogs.antt =====
-- src/tui.rs: the keys in a dialog, `handle_modal_key`. The messages are data.
use iroh_proxy.Common.{
  ℕ, ◌+◌, ◌%◌, Bool, not, ◌&&◌, [], ◌∷◌, ◌++◌, Result, ok, err, if◌then◌else◌, ltb, nat_eq,
}
use iroh_proxy.Common.Text.{Text, trim}
use iroh_proxy.RemotePath.{Iroh}
use iroh_proxy.Config.Files.{Toml, Os}
use iroh_proxy.Daemon.State.{Daemon, DaemonError}
use iroh_proxy.Daemon.Service.{del_serve}
use iroh_proxy.Commands.Persistent.{
  World, Command, CommandError, required, invalid_remote_path, call_failed, not_connected,
  not_reached, enter_add_service, enter_add_forward, enter_remove_forward,
}
use iroh_proxy.Tui.App.{
  AddServiceDialog, AddForwardDialog, RemoveForwardDialog, Modal, add_service, add_forward,
  remove_service, remove_forward, message,
}
use iroh_proxy.Tui.Keys.{KeyCode, char, tab, back_tab, left, right, enter, esc, backspace}

pub data Info : Type 0 where
  removed_service : Text → Info
  added_service added_forward removed_forward : Text → Text → Bool → Info

pub data ModalOutcome : Type 0 where
  stay close : ModalOutcome
  show_info : Info → ModalOutcome
  show_error : CommandError → ModalOutcome

-- What becomes of a dialog's first call: it reaches the server, no client is kept and none
-- connects, or the call through the client fails before the server acts.
pub data Link : Type 0 where
  linked unconnected unreachable : Link

-- `String::pop`.
unfoldable pub pop : Text → Text
pop [] = []
pop (c ∷ []) = []
pop (c ∷ d ∷ s) = c ∷ pop (d ∷ s)

-- `String::push`.
abbrev pub push : Text → ℕ → Text
push s c = s ++ (c ∷ [])

-- The keys that edit a dialog; `control` tells whether the control key is held.
unfoldable pub edit_add_service : KeyCode → Bool → AddServiceDialog → AddServiceDialog
unfolding pop
edit_add_service tab control dialog = record dialog { field = (dialog.field + 1) % 3 }
edit_add_service back_tab control dialog = record dialog { field = (dialog.field + 2) % 3 }
edit_add_service backspace control dialog =
    if nat_eq dialog.field 0
    then record dialog { name = pop dialog.name }
    else if nat_eq dialog.field 1
    then record dialog { target = pop dialog.target }
    else dialog
edit_add_service (char c) control dialog =
    if nat_eq c b' ' && nat_eq dialog.field 2
    then record dialog { persist = not dialog.persist }
    else if ltb dialog.field 2 && not control
    then if nat_eq dialog.field 0
      then record dialog { name = push dialog.name c }
      else record dialog { target = push dialog.target c }
    else dialog
edit_add_service key control dialog = dialog

unfoldable pub edit_add_forward : KeyCode → Bool → AddForwardDialog → AddForwardDialog
unfolding pop
edit_add_forward tab control dialog = record dialog { field = (dialog.field + 1) % 3 }
edit_add_forward back_tab control dialog = record dialog { field = (dialog.field + 2) % 3 }
edit_add_forward backspace control dialog =
    if nat_eq dialog.field 0
    then record dialog { listen = pop dialog.listen }
    else if nat_eq dialog.field 1
    then record dialog { remote = pop dialog.remote }
    else dialog
edit_add_forward (char c) control dialog =
    if nat_eq c b' ' && nat_eq dialog.field 2
    then record dialog { persist = not dialog.persist }
    else if ltb dialog.field 2 && not control
    then if nat_eq dialog.field 0
      then record dialog { listen = push dialog.listen c }
      else record dialog { remote = push dialog.remote c }
    else dialog
edit_add_forward key control dialog = dialog

unfoldable pub edit_remove_forward : KeyCode → RemoveForwardDialog → RemoveForwardDialog
edit_remove_forward tab dialog = record dialog {
  remove_persistently = not dialog.remove_persistently;
}
edit_remove_forward left dialog = record dialog {
  remove_persistently = not dialog.remove_persistently;
}
edit_remove_forward right dialog = record dialog {
  remove_persistently = not dialog.remove_persistently;
}
edit_remove_forward (char c) dialog =
    if nat_eq c b' '
    then record dialog { remove_persistently = not dialog.remove_persistently }
    else dialog
edit_remove_forward key dialog = dialog

-- A key that neither closes the dialog nor calls the server.
unfoldable pub edit_modal : KeyCode → Bool → Modal → Modal
unfolding edit_add_service edit_add_forward edit_remove_forward
edit_modal key control (add_service dialog) = add_service (edit_add_service key control dialog)
edit_modal key control (add_forward dialog) = add_forward (edit_add_forward key control dialog)
edit_modal key control (remove_forward dialog) = remove_forward (edit_remove_forward key dialog)
edit_modal key control (remove_service name) = remove_service name
edit_modal key control (message title body) = message title body

module _ {EndpointId : Type 0} where
  unfoldable pub outcome :
      {A : Type 0}
      → Info
      → Modal
      → Result CommandError A × World EndpointId
      → ModalOutcome × Modal × World EndpointId
  outcome info modal (ok done, w) = (show_info info, modal, w)
  outcome info modal (err e, w) = (show_error e, modal, w)

  abbrev pub lift_call :
      World EndpointId
      → Result DaemonError (Unit {0}) × Daemon EndpointId
      → Result CommandError (Unit {0}) × World EndpointId
  lift_call w (ok done, daemon) = (ok done, record w { daemon = daemon })
  lift_call w (err e, daemon) = (err (call_failed e), record w { daemon = daemon })

  -- The errors that come before the call stay.
  abbrev pub without_call :
      {A : Type 0}
      → CommandError
      → World EndpointId
      → Result CommandError A × World EndpointId
      → Result CommandError A × World EndpointId
  without_call failure w (err required, after) = (err required, after)
  without_call failure w (err (invalid_remote_path e), after) = (err (invalid_remote_path e), after)
  without_call failure w r = (err failure, w)

  abbrev pub over : {A : Type 0} → Link → Command EndpointId A → Command EndpointId A
  over linked command w = command w
  over unconnected command w = without_call not_connected w (command w)
  over unreachable command w = without_call not_reached w (command w)

  module _ ⦃iroh : Iroh EndpointId⦄ ⦃toml : Toml⦄ (os : Os) (bind : Text → Bool)
      (config_path : Text) (link : Link) where
    -- Enter in a dialog.
    unfoldable pub submit : Modal → World EndpointId → ModalOutcome × Modal × World EndpointId
    submit (message title body) w = (close, message title body, w)
    submit (add_service dialog) w =
        outcome (added_service (trim dialog.name) (trim dialog.target) dialog.persist)
          (add_service dialog)
          (over link (enter_add_service os config_path dialog.persist dialog.name dialog.target) w)
    submit (add_forward dialog) w =
        outcome (added_forward (trim dialog.listen) (trim dialog.remote) dialog.persist)
          (add_forward dialog)
          (over link
            (enter_add_forward os bind config_path dialog.persist dialog.listen dialog.remote) w)
    submit (remove_service name) w =
        outcome (removed_service name) (remove_service name)
          (over link (λ v. lift_call v (del_serve name v.daemon)) w)
    submit (remove_forward dialog) w =
        outcome (removed_forward dialog.listen dialog.remote dialog.remove_persistently)
          (remove_forward dialog)
          (over link
            (enter_remove_forward os config_path dialog.remove_persistently dialog.listen
              dialog.remote)
            w)

    unfoldable pub handle_modal_key :
        Modal → KeyCode → Bool → World EndpointId → ModalOutcome × Modal × World EndpointId
    unfolding edit_modal submit
    handle_modal_key modal esc control w = (close, modal, w)
    handle_modal_key modal enter control w = submit modal w
    handle_modal_key modal key control w = (stay, edit_modal key control modal, w)

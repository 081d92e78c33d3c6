-- ===== src/Tui/Fields.antt =====
-- src/tui.rs: the field that has the focus in a dialog that adds a rule.
use iroh_proxy.Common.{◌<◌, ◌≡◌, refl, Bool, some, Result, ok, err, arith}
use iroh_proxy.Common.Text.{Text}
use iroh_proxy.RemotePath.{Iroh}
use iroh_proxy.Config.Files.{Toml, Os}
use iroh_proxy.Commands.Persistent.{World, CommandError}
use iroh_proxy.Tui.App.{
  AddServiceDialog, AddForwardDialog, Modal, add_service, add_forward, remove_service,
  remove_forward, message,
}
use iroh_proxy.Tui.Keys.{
  KeyCode, char, tab, back_tab, up, down, left, right, enter, esc, backspace, other,
}
use iroh_proxy.Tui.Dialogs.{
  Info, outcome, edit_add_service, edit_add_forward, edit_modal, Link, submit, handle_modal_key,
}
use iroh_proxy.Tui.Moves.{FieldFits}

edit_add_service-field :
    (key : KeyCode) (control : Bool) (dialog : AddServiceDialog)
    → dialog.field < 3
    → (edit_add_service key control dialog).field < 3
unfolding edit_add_service
edit_add_service-field (char c) control dialog h = ground arith
edit_add_service-field tab control dialog h = omega arith
edit_add_service-field back_tab control dialog h = omega arith
edit_add_service-field backspace control dialog h = ground arith
edit_add_service-field up control dialog h = h
edit_add_service-field down control dialog h = h
edit_add_service-field left control dialog h = h
edit_add_service-field right control dialog h = h
edit_add_service-field enter control dialog h = h
edit_add_service-field esc control dialog h = h
edit_add_service-field other control dialog h = h

edit_add_forward-field :
    (key : KeyCode) (control : Bool) (dialog : AddForwardDialog)
    → dialog.field < 3
    → (edit_add_forward key control dialog).field < 3
unfolding edit_add_forward
edit_add_forward-field (char c) control dialog h = ground arith
edit_add_forward-field tab control dialog h = omega arith
edit_add_forward-field back_tab control dialog h = omega arith
edit_add_forward-field backspace control dialog h = ground arith
edit_add_forward-field up control dialog h = h
edit_add_forward-field down control dialog h = h
edit_add_forward-field left control dialog h = h
edit_add_forward-field right control dialog h = h
edit_add_forward-field enter control dialog h = h
edit_add_forward-field esc control dialog h = h
edit_add_forward-field other control dialog h = h

edit_modal-FieldFits :
    (key : KeyCode) (control : Bool) (modal : Modal)
    → FieldFits (some modal)
    → FieldFits (some (edit_modal key control modal))
unfolding edit_modal
edit_modal-FieldFits key control (add_service dialog) h =
    edit_add_service-field key control dialog h
edit_modal-FieldFits key control (add_forward dialog) h =
    edit_add_forward-field key control dialog h
edit_modal-FieldFits key control (remove_forward dialog) h = tt
edit_modal-FieldFits key control (remove_service name) h = tt
edit_modal-FieldFits key control (message title body) h = tt

module _ {EndpointId : Type 0} where
  outcome-modal :
      {A : Type 0} (info : Info) (modal : Modal) (r : Result CommandError A × World EndpointId)
      → (outcome info modal r).1 ≡ modal
  unfolding outcome
  outcome-modal info modal (ok done, w) = refl
  outcome-modal info modal (err e, w) = refl

  module _ ⦃iroh : Iroh EndpointId⦄ ⦃toml : Toml⦄ (os : Os) (bind : Text → Bool)
      (config_path : Text) (link : Link) where
    submit-FieldFits :
        (modal : Modal) (w : World EndpointId)
        → FieldFits (some modal)
        → FieldFits (some (submit os bind config_path link modal w).1)
    unfolding submit
    submit-FieldFits (add_service dialog) w h = rw outcome-modal h
    submit-FieldFits (add_forward dialog) w h = rw outcome-modal h
    submit-FieldFits (remove_service name) w h = rw outcome-modal h
    submit-FieldFits (remove_forward dialog) w h = rw outcome-modal h
    submit-FieldFits (message title body) w h = tt

    pub handle_modal_key-FieldFits :
        (modal : Modal) (key : KeyCode) (control : Bool) (w : World EndpointId)
        → FieldFits (some modal)
        → FieldFits (some (handle_modal_key os bind config_path link modal key control w).1)
    unfolding handle_modal_key
    handle_modal_key-FieldFits modal esc control w h = h
    handle_modal_key-FieldFits modal enter control w h = submit-FieldFits modal w h
    handle_modal_key-FieldFits modal (char c) control w h =
        edit_modal-FieldFits (char c) control modal h
    handle_modal_key-FieldFits modal tab control w h = edit_modal-FieldFits tab control modal h
    handle_modal_key-FieldFits modal back_tab control w h =
        edit_modal-FieldFits back_tab control modal h
    handle_modal_key-FieldFits modal backspace control w h =
        edit_modal-FieldFits backspace control modal h
    handle_modal_key-FieldFits modal up control w h = edit_modal-FieldFits up control modal h
    handle_modal_key-FieldFits modal down control w h = edit_modal-FieldFits down control modal h
    handle_modal_key-FieldFits modal left control w h = edit_modal-FieldFits left control modal h
    handle_modal_key-FieldFits modal right control w h = edit_modal-FieldFits right control modal h
    handle_modal_key-FieldFits modal other control w h = edit_modal-FieldFits other control modal h

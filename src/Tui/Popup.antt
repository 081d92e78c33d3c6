-- ===== src/Tui/Popup.antt =====
-- src/tui.rs: what is drawn of a dialog, as text.
use iroh_proxy.Common.{ℕ, Bool, [], List, ◌∷◌, ◌++◌, if◌then◌else◌, nat_eq}
use iroh_proxy.Common.Text.{Text, text}
use iroh_proxy.Tui.App.{Modal, add_service, add_forward, remove_service, remove_forward, message}

pub record Popup : Type 0 where
  pub title : Text
  pub body : List Text

-- A field of a dialog, marked when it has the focus.
abbrev pub field_line : ℕ → ℕ → Text → Text → Text
field_line field own label value =
    (if nat_eq field own then text "> " else text "  ") ++ (label ++ value)

abbrev pub yes_no : Bool → Text
yes_no b = if b then text "yes" else text "no"

abbrev pub submit_keys : Text
submit_keys = text "Tab switch field, Space toggle, Enter submit, Esc cancel"

unfoldable pub draw_modal : Modal → Popup
draw_modal (add_service dialog) = record {
  title = text "Add Service";
  body =
      field_line dialog.field 0 (text "name: ") dialog.name
      ∷ field_line dialog.field 1 (text "target: ") dialog.target
      ∷ field_line dialog.field 2 (text "persist: ") (yes_no dialog.persist)
      ∷ []
      ∷ submit_keys
      ∷ [];
}
draw_modal (add_forward dialog) = record {
  title = text "Add Forward";
  body =
      field_line dialog.field 0 (text "listen: ") dialog.listen
      ∷ field_line dialog.field 1 (text "remote: ") dialog.remote
      ∷ field_line dialog.field 2 (text "persist: ") (yes_no dialog.persist)
      ∷ []
      ∷ submit_keys
      ∷ [];
}
draw_modal (remove_service name) = record {
  title = text "Remove Service";
  body =
      (text "Remove service '" ++ (name ++ text "'?")) ∷ [] ∷ text "Enter confirm, Esc cancel" ∷ [];
}
draw_modal (remove_forward dialog) = record {
  title = text "Remove Forward";
  body =
      (text "Remove forward '" ++ (dialog.listen ++ (text " -> " ++ (dialog.remote ++ text "'?"))))
      ∷ []
      ∷ (text "mode: "
          ++ (if dialog.remove_persistently then text "runtime + config" else text "runtime only"))
      ∷ text "Tab/Left/Right/Space toggle mode"
      ∷ text "Enter confirm, Esc cancel"
      ∷ [];
}
draw_modal (message title body) = record {
  title = title;
  body = body ∷ [] ∷ text "Enter/Esc close" ∷ [];
}

-- ===== src/Tui/Editing.antt =====
-- src/tui.rs: laws of the keys that edit a dialog.
use iroh_proxy.Common.{
  ℕ, ◌<◌, ◌≡◌, refl, ap, sym, subst, ◌∙◌, nat_eq, Bool-cases, false, [], ◌∷◌, arith, ◌⊎◌, inl, inr,
}
use iroh_proxy.Common.Text.{Text}
use iroh_proxy.Tui.App.{AddServiceDialog}
use iroh_proxy.Tui.Keys.{char, tab, back_tab, backspace}
use iroh_proxy.Tui.Dialogs.{pop, push, edit_add_service}

pop-push : (s : Text) (c : ℕ) → pop (push s c) ≡ s
unfolding pop
pop-push [] c = refl
pop-push (d ∷ []) c = refl
pop-push (d ∷ e ∷ s) c = ap (λ t. d ∷ t) (pop-push (e ∷ s) c)

two_fields : (n : ℕ) → n < 2 → (n ≡ 0) ⊎ (n ≡ 1)
two_fields n h = ground arith

abbrev at_field : ℕ → AddServiceDialog → AddServiceDialog
at_field n dialog = record dialog { field = n }

type_name :
    (c : ℕ) (dialog : AddServiceDialog)
    → edit_add_service (char c) false (at_field 0 dialog)
      ≡ at_field 0 (record dialog { name = push dialog.name c })
unfolding edit_add_service
type_name c dialog = elim (Bool-cases (nat_eq c b' ')) [ inl e ↦ rw e refl | inr e ↦ rw e refl ]

type_target :
    (c : ℕ) (dialog : AddServiceDialog)
    → edit_add_service (char c) false (at_field 1 dialog)
      ≡ at_field 1 (record dialog { target = push dialog.target c })
unfolding edit_add_service
type_target c dialog = elim (Bool-cases (nat_eq c b' ')) [ inl e ↦ rw e refl | inr e ↦ rw e refl ]

abbrev Undoes : ℕ → AddServiceDialog → Type 0
Undoes c dialog = edit_add_service backspace false (edit_add_service (char c) false dialog) ≡ dialog

-- In a text field of the dialog that adds a service, a character and Backspace leave the dialog as it
-- was.
pub edit_add_service_undo :
    (c : ℕ) (dialog : AddServiceDialog)
    → dialog.field < 2
    → edit_add_service backspace false (edit_add_service (char c) false dialog) ≡ dialog
unfolding edit_add_service
edit_add_service_undo c dialog h = elim (two_fields dialog.field h) [
  | inl e ↦
      subst (λ n. Undoes c (at_field n dialog)) (sym e)
        (ap (edit_add_service backspace false) (type_name c dialog)
          ∙ ap (λ s. at_field 0 (record dialog { name = s })) (pop-push dialog.name c))
  | inr e ↦
      subst (λ n. Undoes c (at_field n dialog)) (sym e)
        (ap (edit_add_service backspace false) (type_target c dialog)
          ∙ ap (λ s. at_field 1 (record dialog { target = s })) (pop-push dialog.target c))
]

-- From one of the three fields of the dialog that adds a service, Tab and Shift-Tab lead back to the
-- dialog as it was in either order, and Tab leads to one of the three.
pub edit_add_service_tabs :
    (dialog : AddServiceDialog)
    → dialog.field < 3
    → (edit_add_service back_tab false (edit_add_service tab false dialog) ≡ dialog)
      × (edit_add_service tab false (edit_add_service back_tab false dialog) ≡ dialog)
      × ((edit_add_service tab false dialog).field < 3)
unfolding edit_add_service
edit_add_service_tabs dialog h = (
  ap (λ n. at_field n dialog) (omega arith),
  ap (λ n. at_field n dialog) (omega arith),
  omega arith,
)

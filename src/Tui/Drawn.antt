-- ===== src/Tui/Drawn.antt =====
-- src/tui.rs: what is drawn and what the keys act on.
use iroh_proxy.Common.{
  ℕ, suc, zero, ◌-◌, ◌≤◌, ◌≡◌, refl, ap, Option, none, some, List, [], ◌∷◌, ◌++◌, length, take,
  length-take, length-append, arith, if◌then◌else◌,
}
use iroh_proxy.Common.Text.{Text, text}
use iroh_proxy.Tui.App.{
  Pane, App, Modal, remove_service, remove_forward, LayoutMode, selected, open_remove_dialog,
}
use iroh_proxy.Tui.Keys.{char, continue, handle_non_modal_key}
use iroh_proxy.Tui.Labels.{IconMode, dots, truncate_with_ellipsis}
use iroh_proxy.Tui.Draw.{Block, Table, Body, three_tables, routes_and_connections, draw}

length-dots : (n : ℕ) → length (dots n) ≡ n
unfolding dots
length-dots zero = refl
length-dots (suc n) = ap suc (length-dots n)

-- A line that is cut has at most the given number of characters, and is cut only if it has more.
pub truncate_with_ellipsis-fits :
    (value : Text) (max_chars : ℕ)
    → (length (truncate_with_ellipsis value max_chars) ≤ max_chars)
      × (length value ≤ max_chars → truncate_with_ellipsis value max_chars ≡ value)
unfolding truncate_with_ellipsis
truncate_with_ellipsis-fits value max_chars = ground (
  arith,
  length-dots max_chars,
  length-take (max_chars - 3) value,
  length-append (take (max_chars - 3) value) (text "..."),
)

-- The tables that the focus is drawn at: one whose frame is highlighted, or the one under the tabs if
-- they are.
abbrev if_framed : Option Block → Table → List Table
if_framed none table = []
if_framed (some block) table = if block.highlighted then table ∷ [] else []

abbrev pub highlighted_tables : Body → List Table
highlighted_tables (three_tables a b c) =
    if_framed a.block a ++ (if_framed b.block b ++ if_framed c.block c)
highlighted_tables (routes_and_connections tabs routes connections) =
    (if tabs.highlighted then routes ∷ [] else []) ++ if_framed connections.block connections

-- The selected row of a table.
abbrev pub row_at : Table → Option (List Text)
row_at table = selected table.selected table.rows

-- The dialog asks about the entry in this row.
abbrev pub Names : Modal → List Text → Type 0
Names (remove_service name) row = (target : Text) × (row ≡ name ∷ target ∷ [])
Names (remove_forward dialog) row =
    (mark : Text) × (row ≡ dialog.listen ∷ dialog.remote ∷ mark ∷ [])
Names modal row = ⊥

abbrev pub listed : Pane → App → ℕ
listed Pane.services app = length app.services
listed Pane.forwards app = length app.forwards
listed Pane.connections app = 0

module _ (app : App) where
  -- The dialog that removes from a pane names the selected row of the table.
  record RowNamed (pane : Pane) (table : Table) : Type 0 where
    row : List Text
    modal : Modal
    shown : row_at table ≡ some row
    opened : open_remove_dialog pane app ≡ record app { modal = some modal }
    names : Names modal row

  module _ (icon_mode : IconMode) (status_width help_width : ℕ) where
    -- The focus is drawn at one table, and `d` opens the dialog that names its selected row.
    pub record RemovesShown (layout_mode : LayoutMode) : Type 0 where
      pub table : Table
      pub row : List Text
      pub modal : Modal
      pub focus :
          highlighted_tables (draw icon_mode status_width help_width layout_mode app).body
          ≡ table ∷ []
      pub shown : row_at table ≡ some row
      pub opened :
          handle_non_modal_key (char b'd') layout_mode app
          ≡ (continue, record app { modal = some modal })
      pub names : Names modal row

-- ===== src/Daemon/Connections.antt =====
-- src/daemon/connections.rs: the registry of connections in flight. The registry's methods lock its
-- table for each access, so a method's access is one step; the lock is taken also when poisoned.
use iroh_proxy.Common.{ℕ, ◌+◌, ◌%◌, ◌^◌, List, [], ◌∷◌, ◌++◌, length, ℕ_Keyed}
use iroh_proxy.Common.Dict.{Dict, insert, remove}
use iroh_proxy.Common.Text.{Text, text}

pub record ActiveConnection : Type 0 where
  pub src : Text
  pub kind : Text
  pub dst : Text

-- `events` is what was sent on `state_tx`, the oldest first; the daemon sends on the same channel.
pub record ConnectionRegistry : Type 0 where
  pub active : Dict ℕ ActiveConnection
  pub next_id : ℕ
  pub events : List Text

abbrev pub empty_registry : ConnectionRegistry
empty_registry = record { active = []; next_id = 1; events = [] }

unfoldable pub send : Text → ConnectionRegistry → ConnectionRegistry
send reason r = record r { events = r.events ++ (reason ∷ []) }

abbrev pub connection_opened : Text
connection_opened = text "connection-opened"

abbrev pub connection_closed : Text
connection_closed = text "connection-closed"

-- `fetch_add` wraps at 64 bits. The result is the guard's id.
unfoldable pub register : ActiveConnection → ConnectionRegistry → ℕ × ConnectionRegistry
unfolding send
register info r = (
  r.next_id,
  send connection_opened
      (record r { active = insert r.next_id info r.active; next_id = (r.next_id + 1) % 2 ^ 64 }),
)

-- `Drop` of a guard.
unfoldable pub drop_guard : ℕ → ConnectionRegistry → ConnectionRegistry
unfolding send
drop_guard id r = send connection_closed (record r { active = remove id r.active })

unfoldable pub len : ConnectionRegistry → ℕ
len r = length r.active

abbrev pub snapshot : ConnectionRegistry → List (ℕ × ActiveConnection)
snapshot r = r.active

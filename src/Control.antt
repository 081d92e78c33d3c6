-- ===== src/Control.antt =====
-- src/control.rs: the records that the control client hands out, and its queries. The transport is
-- that of zbus; what a call of it gives is an argument.
use iroh_proxy.Common.{ℕ, Bool, true, false, Option, none, some, List, map, if◌then◌else◌}
use iroh_proxy.Common.Text.{Text}
use iroh_proxy.Daemon.Service.{Status}

pub record ActiveConnection : Type 0 where
  pub id : ℕ
  pub src : Text
  pub kind : Text
  pub dst : Text

pub record ServeRoute : Type 0 where
  pub name : Text
  pub target : Text

pub record ForwardRoute : Type 0 where
  pub listen : Text
  pub remote : Text
  pub persisted : Bool

-- The answer of a server at some time: whether the transport connects and a proxy can be built, and
-- what the call of `Status` gives.
pub record Transport : Type 0 where
  pub connects : Bool
  pub builds_proxy : Bool
  pub status_reply : Option Status

-- `ControlClient::status`, which has no errors.
unfoldable pub client_status : Transport → Option Status
client_status transport = if transport.builds_proxy then transport.status_reply else none

unfoldable pub connect_running : Transport → Option Status
unfolding client_status
connect_running transport = if transport.connects then client_status transport else none

-- The lists, from the rows of the reply; an error of the proxy or the call is `none`.
module _ {Row Route : Type 0} where
  abbrev pub list_rows : (Row → Route) → Bool → Option (List Row) → Option (List Route)
  list_rows read true none = none
  list_rows read true (some rows) = some (map read rows)
  list_rows read false rows = none

unfoldable pub client_list_connections :
    Bool → Option (List (ℕ × Text × Text × Text)) → Option (List ActiveConnection)
client_list_connections =
    list_rows (λ (id, src, kind, dst). record { id = id; src = src; kind = kind; dst = dst })

unfoldable pub client_list_serves : Bool → Option (List (Text × Text)) → Option (List ServeRoute)
client_list_serves = list_rows (λ (name, target). record { name = name; target = target })

unfoldable pub client_list_forwards :
    Bool → Option (List (Text × Text × Bool)) → Option (List ForwardRoute)
client_list_forwards = list_rows (λ (listen, remote, persisted). record {
  listen = listen;
  remote = remote;
  persisted = persisted;
})

-- ===== src/Tui/Fetch.antt =====
-- src/tui.rs: fetching a snapshot of the server's state over a client that is kept between the
-- fetches, `fetch_snapshot`.
use iroh_proxy.Common.{ℕ, Bool, true, false, Option, none, some, List, [], if◌then◌else◌}
use iroh_proxy.Common.Text.{Text}
use iroh_proxy.RemotePath.{Iroh}
use iroh_proxy.Daemon.State.{Daemon}
use iroh_proxy.Daemon.Service.{Status, status, list_serves, list_forwards, list_connections}
use iroh_proxy.Control.{
  Transport, ServeRoute, ForwardRoute, ActiveConnection, client_status, client_list_serves,
  client_list_forwards, client_list_connections,
}
use iroh_proxy.Tui.App.{Snapshot}

-- What the calls of a client give; `transport` tells whether a new client connects, too.
pub record Replies : Type 0 where
  pub transport : Transport
  pub serves : Option (List (Text × Text))
  pub forwards : Option (List (Text × Text × Bool))
  pub connections : Option (List (ℕ × Text × Text × Text))

abbrev pub disconnected : Snapshot
disconnected = record { status = none; services = []; forwards = []; connections = [] }

-- Whether there is a client, and whether one is kept.
unfoldable pub get_or_connect_control_client : Bool → Bool → Bool
get_or_connect_control_client connects kept = if kept then true else connects

-- The calls one after another, as long as each gives its list.
abbrev pub with_connections :
    Status → List ServeRoute → List ForwardRoute → Option (List ActiveConnection) → Snapshot × Bool
with_connections status services forwards none = (disconnected, false)
with_connections status services forwards (some connections) = (
  record {
    status = some status;
    services = services;
    forwards = forwards;
    connections = connections;
  },
  true,
)

abbrev pub with_forwards :
    Replies → Status → List ServeRoute → Option (List ForwardRoute) → Snapshot × Bool
with_forwards replies status services none = (disconnected, false)
with_forwards replies status services (some forwards) =
    with_connections status services forwards
      (client_list_connections replies.transport.builds_proxy replies.connections)

abbrev pub with_services : Replies → Status → Option (List ServeRoute) → Snapshot × Bool
with_services replies status none = (disconnected, false)
with_services replies status (some services) =
    with_forwards replies status services
      (client_list_forwards replies.transport.builds_proxy replies.forwards)

abbrev pub with_status : Replies → Option Status → Snapshot × Bool
with_status replies none = (disconnected, false)
with_status replies (some status) =
    with_services replies status (client_list_serves replies.transport.builds_proxy replies.serves)

-- The snapshot, and whether the client is kept for the next one. All errors give a snapshot.
unfoldable pub fetch_snapshot : Replies → Bool → Snapshot × Bool
unfolding get_or_connect_control_client client_status client_list_serves client_list_forwards
    client_list_connections
fetch_snapshot replies kept =
    if get_or_connect_control_client replies.transport.connects kept
    then with_status replies (client_status replies.transport)
    else (disconnected, false)

-- The replies of a server in this state.
unfoldable pub replies_of :
    {EndpointId : Type 0} ⦃iroh : Iroh EndpointId⦄ → Daemon EndpointId → Replies
unfolding status list_serves list_forwards list_connections
replies_of d = record {
  transport = record { connects = true; builds_proxy = true; status_reply = some (status d) };
  serves = some (list_serves d);
  forwards = some (list_forwards d);
  connections = some (list_connections d);
}

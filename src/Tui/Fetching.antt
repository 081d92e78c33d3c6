-- ===== src/Tui/Fetching.antt =====
-- src/tui.rs, src/control.rs and src/daemon/service.rs: what the interface shows of a server.
use mathlib.Core.List.{Perm}
use mathlib.Core.List.Perm
use iroh_proxy.Common.{ℕ, ◌≡◌, refl, Bool, true, false, some, List, [], ◌∷◌, map, subst}
use iroh_proxy.Common.Text.{Text}
use iroh_proxy.RemotePath.{Iroh}
use iroh_proxy.Daemon.State.{Daemon}
use iroh_proxy.Daemon.Service.{list_serves, list_forwards, list_connections}
use iroh_proxy.Daemon.Service
use iroh_proxy.Control.{
  ServeRoute, ForwardRoute, ActiveConnection, client_status, client_list_serves,
  client_list_forwards, client_list_connections,
}
use iroh_proxy.Tui.Sorting.{sort_by, sort_by-Perm}
use iroh_proxy.Tui.App.{App, apply_snapshot}
use iroh_proxy.Tui.Fetch.{fetch_snapshot, replies_of}

-- The rows of the server's replies that the shown entries come from.
abbrev service_row : ServeRoute → Text × Text
service_row route = (route.name, route.target)

abbrev forward_row : ForwardRoute → Text × Text × Bool
forward_row route = (route.listen, route.remote, route.persisted)

abbrev connection_row : ActiveConnection → ℕ × Text × Text × Text
connection_row conn = (conn.id, conn.src, conn.kind, conn.dst)

map-map_id :
    {A B : Type 0} (f : A → B) (g : B → A)
    → ((a : A) → g (f a) ≡ a)
    → (xs : List A) → map g (map f xs) ≡ xs
map-map_id f g same [] = refl
map-map_id f g same (x ∷ xs) = rw (same x, map-map_id f g same xs) refl

sorted_rows :
    {A B : Type 0} (before : A → A → Bool) (f : B → A) (g : A → B)
    → ((b : B) → g (f b) ≡ b)
    → (rows : List B) → Perm rows (map g (sort_by before (map f rows)))
sorted_rows before f g same rows =
    subst (λ r. Perm r (map g (sort_by before (map f rows)))) (map-map_id f g same rows)
      (Perm.map g (sort_by-Perm before (map f rows)))

module _ {EndpointId : Type 0} ⦃iroh : Iroh EndpointId⦄ where
  -- The interface shows this server.
  pub record Shows (d : Daemon EndpointId) (app : App) : Type 0 where
    pub status : app.status ≡ some (Service.status d)
    pub services : Perm (list_serves d) (map service_row app.services)
    pub forwards : Perm (list_forwards d) (map forward_row app.forwards)
    pub connections : Perm (list_connections d) (map connection_row app.connections)

  shown :
      (d : Daemon EndpointId) (app : App)
      → Shows d (apply_snapshot (fetch_snapshot (replies_of d) true).0 app)
  unfolding fetch_snapshot replies_of apply_snapshot client_status client_list_serves
      client_list_forwards client_list_connections
  shown d app = record {
    status = refl;
    services = sorted_rows _ _ service_row (λ row. refl) (list_serves d);
    forwards = sorted_rows _ _ forward_row (λ row. refl) (list_forwards d);
    connections = sorted_rows _ _ connection_row (λ row. refl) (list_connections d);
  }

  -- A query of a running server, over a new client or the kept one, keeps the client, and the
  -- interface then shows the status of the server and exactly its services, its forwards and its
  -- connections, each as often as the server lists it, in some order.
  pub fetch_snapshot-Shows :
      (d : Daemon EndpointId) (kept : Bool) (app : App)
      → let fetched = fetch_snapshot (replies_of d) kept in
        (fetched.1 ≡ true) × Shows d (apply_snapshot fetched.0 app)
  unfolding fetch_snapshot replies_of apply_snapshot client_status client_list_serves
      client_list_forwards client_list_connections
  fetch_snapshot-Shows d true app = (refl, shown d app)
  fetch_snapshot-Shows d false app = (refl, shown d app)

-- ===== src/Daemon/Routed.antt =====
-- src/daemon/routes.rs: which incoming connections reach a target.
use iroh_proxy.Common.{
  ℕ, ◌≡◌, ap, ◌∙◌, max, true, false, Option, none, some, ok, is_ok, if◌then◌else◌,
}
use iroh_proxy.Common.Dict.{lookup, HasDistinctKeys, same_refl}
use iroh_proxy.Common.Text.{Text, text, text_Keyed}
use iroh_proxy.Common.Utf8.{Bytes, IsText}
use iroh_proxy.RemotePath.{service_to_alpn}
use iroh_proxy.Daemon.Connections.{ConnectionRegistry, register, drop_guard}
use iroh_proxy.Daemon.State.{Route, Daemon}
use iroh_proxy.Daemon.Service.{add_serve, del_serve}
use iroh_proxy.Daemon.Served.{route_of, route_to, add_serve-AddsServe, del_serve-DelsServe}
use iroh_proxy.Proxy.Pump.{bytes, pump_streams, after_up, await_end, joined, Task}
use iroh_proxy.Daemon.Incoming.{
  Incoming, Handled, unknown_service, finished, proxy_to_route, with_route, handle_incoming,
  after_proxy, pump_outcome,
}

module _ (incoming : Incoming) (others : ConnectionRegistry → ConnectionRegistry) where
  -- How a connection ends whose stream is accepted, whose target is reached and whose directions end.
  abbrev pub proxied : ℕ → ℕ → Route → ConnectionRegistry → Option (Handled × ConnectionRegistry)
  proxied up down route registry =
      let (guard, held) =
        register (record { src = incoming.peer; kind = text "serve"; dst = route.name }) registry in
      some (
        finished route (record { up_bytes = up; down_bytes = down; timed_out = false }),
        drop_guard guard (others held),
      )

  proxy_to_route_lem :
      (route : Route) (up_end up down_end down : ℕ)
      → incoming.stream_accepted ≡ true
      → incoming.reachable route.target ≡ true
      → incoming.streams.up_end ≡ some up_end
      → incoming.streams.up ≡ ok up
      → incoming.streams.down_end ≡ some down_end
      → incoming.streams.down ≡ bytes down
      → proxy_to_route incoming route
        ≡ some (ok (record { up_bytes = up; down_bytes = down; timed_out = false }))
  unfolding proxy_to_route pump_streams after_up await_end
  proxy_to_route_lem route up_end up down_end down a r ue u de d =
      accepted a r
      ∙ ap pump_outcome (
          cc ue
          ∙ ap (after_up incoming.streams none up_end) u
          ∙ ap (await_end incoming.streams up_end up) de)
      ∙ ap
          (λ c. pump_outcome (
            some (record {
              result = joined up c;
              at = max up_end down_end;
              down_task = Task.finished;
            })))
          d
    where
      accepted :
          incoming.stream_accepted ≡ true
          → incoming.reachable route.target ≡ true
          → proxy_to_route incoming route ≡ pump_outcome (pump_streams incoming.streams none)
      accepted a r = simp (a, r)

module _ {EndpointId : Type 0} (incoming : Incoming)
    (others : ConnectionRegistry → ConnectionRegistry) where
  handle_incoming_lem :
      (d : Daemon EndpointId) (alpn : Bytes)
      → incoming.negotiated ≡ some alpn
      → handle_incoming incoming others d
        ≡ with_route incoming others d.connections (lookup alpn d.routes)
  unfolding handle_incoming
  handle_incoming_lem d alpn h = cc h

  -- After a successful DelServe a connection for the name is turned away, and never registered. The
  -- name is a text, and no identifier stands twice in the table.
  pub handle_incoming-del_serve :
      (name : Text) (d : Daemon EndpointId)
      → IsText name
      → HasDistinctKeys d.routes
      → is_ok (del_serve name d).0 ≡ true
      → incoming.negotiated ≡ some (service_to_alpn name)
      → let later = (del_serve name d).1 in
        handle_incoming incoming others later ≡ some (unknown_service, later.connections)
  handle_incoming-del_serve name d k distinct h asks =
      let later = (del_serve name d).1 in
      let gone = (del_serve-DelsServe name d distinct).served h name k k in
      handle_incoming_lem later _ asks
      ∙ ap (with_route incoming others later.connections)
          (gone ∙ ap (λ b. if b then none else route_of name d) (same_refl name))

  -- After a successful AddServe a connection for the name is proxied to the target, if its stream is
  -- accepted, the target is reached and both directions end without an error; its entry is in the
  -- registry meanwhile. The name is a text.
  pub handle_incoming-add_serve :
      (name target : Text) (d : Daemon EndpointId) (up_end up down_end down : ℕ)
      → IsText name
      → is_ok (add_serve name target d).0 ≡ true
      → incoming.negotiated ≡ some (service_to_alpn name)
      → incoming.stream_accepted ≡ true
      → incoming.reachable target ≡ true
      → incoming.streams.up_end ≡ some up_end
      → incoming.streams.up ≡ ok up
      → incoming.streams.down_end ≡ some down_end
      → incoming.streams.down ≡ bytes down
      → let later = (add_serve name target d).1 in
        handle_incoming incoming others later
        ≡ proxied incoming others up down (route_to name target) later.connections
  handle_incoming-add_serve name target d up_end up down_end down k h asks a r ue u de dn =
      let later = (add_serve name target d).1 in
      let served = (add_serve-AddsServe name target d).served h name k k in
      handle_incoming_lem later _ asks
      ∙ ap (with_route incoming others later.connections) (
          served
          ∙ ap (λ b. if b then some (route_to name target) else route_of name d) (same_refl name))
      ∙ ap (after_proxy (route_to name target) _ _) (
          proxy_to_route_lem incoming others (route_to name target) up_end up down_end down a r ue u
            de dn)

-- ===== src/Daemon/Incoming.antt =====
-- src/daemon/routes.rs: `handle_incoming` and `proxy_to_route`. Logging is not modelled.
use iroh_proxy.Common.{ℕ, Bool, Option, none, some, Result, ok, err, if◌then◌else◌}
use iroh_proxy.Common.Dict.{lookup}
use iroh_proxy.Common.Text.{Text, text, text_Keyed}
use iroh_proxy.Common.Utf8.{Bytes}
use iroh_proxy.Daemon.Connections.{ConnectionRegistry, register, drop_guard}
use iroh_proxy.Daemon.State.{Route, Daemon}
use iroh_proxy.Proxy.Pump.{Streams, PumpStats, PumpError, Pumped, pump_streams}

-- An incoming connection: the protocol that its handshake agrees on, if it succeeds, the peer,
-- whether a stream is accepted, to which targets a local connection can be made, and the streams.
pub record Incoming : Type 0 where
  pub negotiated : Option Bytes
  pub peer : Text
  pub stream_accepted : Bool
  pub reachable : Text → Bool
  pub streams : Streams

-- The stage of a failure; that of the stream carries its error.
pub data IncomingFailure : Type 0 where
  accept_stream connect_target : IncomingFailure
  proxy_stream : PumpError → IncomingFailure

pub data Handled : Type 0 where
  handshake_failed unknown_service : Handled
  failed : Route → IncomingFailure → Handled
  finished : Route → PumpStats → Handled

abbrev pub pump_outcome : Option Pumped → Option (Result IncomingFailure PumpStats)
pump_outcome none = none
pump_outcome (some pumped) = elim pumped.result [
  | ok stats ↦ some (ok stats)
  | err e ↦ some (err (proxy_stream e))
]

-- `none` stands for a call that does not return: no timeout bounds the served streams.
unfoldable pub proxy_to_route : Incoming → Route → Option (Result IncomingFailure PumpStats)
unfolding pump_streams
proxy_to_route incoming route =
    if incoming.stream_accepted
    then if incoming.reachable route.target
      then pump_outcome (pump_streams incoming.streams none)
      else some (err connect_target)
    else some (err accept_stream)

-- The end of a proxied connection, with the guard dropped. After the streams the handler waits for
-- the peer to close the connection, which the transport's idle timeout bounds.
abbrev pub after_proxy :
    Route
    → ℕ
    → ConnectionRegistry
    → Option (Result IncomingFailure PumpStats)
    → Option (Handled × ConnectionRegistry)
after_proxy route guard held none = none
after_proxy route guard held (some (ok stats)) = some (finished route stats, drop_guard guard held)
after_proxy route guard held (some (err failure)) =
    some (failed route failure, drop_guard guard held)

-- `others` is what the registry's other users do while the connection is proxied.
abbrev pub with_route :
    Incoming
    → (ConnectionRegistry → ConnectionRegistry)
    → ConnectionRegistry
    → Option Route
    → Option (Handled × ConnectionRegistry)
with_route incoming others registry none = some (unknown_service, registry)
with_route incoming others registry (some route) =
    let (guard, held) =
      register (record { src = incoming.peer; kind = text "serve"; dst = route.name }) registry in
    after_proxy route guard (others held) (proxy_to_route incoming route)

unfoldable pub handle_incoming :
    {EndpointId : Type 0}
    → Incoming
    → (ConnectionRegistry → ConnectionRegistry)
    → Daemon EndpointId
    → Option (Handled × ConnectionRegistry)
unfolding proxy_to_route register drop_guard
handle_incoming incoming others d = elim incoming.negotiated [
  | none ↦ some (handshake_failed, d.connections)
  | some alpn ↦ with_route incoming others d.connections (lookup alpn d.routes)
]

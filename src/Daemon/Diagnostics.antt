-- ===== src/Daemon/Diagnostics.antt =====
-- src/daemon/diagnostics.rs: what is logged of an incoming connection. An event is its level and the
-- fields that the code computes; the others are numbers and texts of the connection. An error's chain
-- of causes is a list.
use iroh_proxy.Common.{
  ℕ, ◌/◌, ◌^◌, ◌-◌, min, Bool, true, false, not, ◌&&◌, Option, none, some, List, [], ◌∷◌, length,
  find, nat_eq, if◌then◌else◌,
}
use iroh_proxy.Common.Text.{Text, text}
use iroh_proxy.Proxy.Errors.{
  ErrorKind, ConnectionError, version_mismatch, transport_error, connection_closed, reset,
  timed_out, locally_closed, cids_exhausted, application_closed, ConnectingError, connection_error,
  is_disconnect, internal_consistency_error, handshake_failure, locally_rejected, other_connecting,
}
use iroh_proxy.Proxy.Pump.{PumpStats}
use iroh_proxy.Daemon.State.{Route}

pub data Stage : Type 0 where
  accept_stream connect_target proxy_stream : Stage

unfoldable pub as_str : Stage → Text
as_str accept_stream = text "accept_stream"
as_str connect_target = text "connect_target"
as_str proxy_stream = text "proxy_stream"

-- A cause of an error.
pub data Cause : Type 0 where
  caused_by_connection : ConnectionError → Cause
  caused_by_io : ErrorKind → Cause
  message : Text → Cause

pub record IncomingFailure : Type 0 where
  pub stage : Stage
  pub error : List Cause

pub data DiagnosticLevel : Type 0 where
  info warn error : DiagnosticLevel

-- A path of a connection, its round trip in nanoseconds.
pub record NetworkPath : Type 0 where
  pub is_selected : Bool
  pub is_relay : Bool
  pub is_ip : Bool
  pub remote_addr : Text
  pub local_addr : Text
  pub rtt : ℕ

pub record PathDiagnostics : Type 0 where
  pub count : ℕ
  pub has_selected : Bool
  pub selected_kind : Text
  pub selected_remote : Text
  pub selected_local : Text
  pub selected_rtt_ms : Option ℕ

-- `as_millis().min(u64::MAX as u128) as u64`.
abbrev pub as_millis : ℕ → ℕ
as_millis nanos = min (nanos / 1000000) (2 ^ 64 - 1)

abbrev pub path_kind : NetworkPath → Text
path_kind path =
    if path.is_relay then text "relay" else if path.is_ip then text "direct" else text "unknown"

abbrev pub diagnose : ℕ → Option NetworkPath → PathDiagnostics
diagnose count none = record {
  count = count;
  has_selected = false;
  selected_kind = text "none";
  selected_remote = text "<none>";
  selected_local = text "<none>";
  selected_rtt_ms = none;
}
diagnose count (some path) = record {
  count = count;
  has_selected = true;
  selected_kind = path_kind path;
  selected_remote = path.remote_addr;
  selected_local = path.local_addr;
  selected_rtt_ms = some (as_millis path.rtt);
}

unfoldable pub path_diagnostics : List NetworkPath → PathDiagnostics
path_diagnostics paths = diagnose (length paths) (find (λ path. path.is_selected) paths)

-- `chain().find_map(downcast_ref)`.
unfoldable pub connection_error_in_chain : List Cause → Option ConnectionError
connection_error_in_chain [] = none
connection_error_in_chain (caused_by_connection reason ∷ causes) = some reason
connection_error_in_chain (caused_by_io kind ∷ causes) = connection_error_in_chain causes
connection_error_in_chain (message text ∷ causes) = connection_error_in_chain causes

unfoldable pub io_error_in_chain : List Cause → Option ErrorKind
io_error_in_chain [] = none
io_error_in_chain (caused_by_io kind ∷ causes) = some kind
io_error_in_chain (caused_by_connection reason ∷ causes) = io_error_in_chain causes
io_error_in_chain (message text ∷ causes) = io_error_in_chain causes

unfoldable pub connection_error_level : ConnectionError → DiagnosticLevel
connection_error_level locally_closed = info
connection_error_level (application_closed code) = if nat_eq code 0 then info else warn
connection_error_level version_mismatch = error
connection_error_level cids_exhausted = error
connection_error_level transport_error = warn
connection_error_level connection_closed = warn
connection_error_level reset = warn
connection_error_level timed_out = warn

unfoldable pub connecting_error_level : ConnectingError → DiagnosticLevel
unfolding connection_error_level
connecting_error_level (connection_error source) = connection_error_level source
connecting_error_level internal_consistency_error = error
connecting_error_level handshake_failure = warn
connecting_error_level locally_rejected = warn
connecting_error_level other_connecting = warn

abbrev pub level_or : DiagnosticLevel → Option ConnectionError → DiagnosticLevel
level_or level none = level
level_or level (some reason) = connection_error_level reason

-- `Option::or`.
abbrev pub or_reason : Option ConnectionError → Option ConnectionError → Option ConnectionError
or_reason none other = other
or_reason (some reason) other = some reason

abbrev pub is_some_disconnect : Option ErrorKind → Bool
is_some_disconnect none = false
is_some_disconnect (some kind) = is_disconnect kind

-- The arm of a failed stream.
abbrev pub proxy_stream_level :
    Option ConnectionError → Option ErrorKind → Option ConnectionError → DiagnosticLevel
proxy_stream_level (some reason) io close_reason = connection_error_level reason
proxy_stream_level none io close_reason =
    if is_some_disconnect io then level_or info close_reason else error

unfoldable pub incoming_failure_level : IncomingFailure → Option ConnectionError → DiagnosticLevel
unfolding connection_error_in_chain io_error_in_chain connection_error_level is_disconnect
incoming_failure_level failure close_reason = elim failure.stage [
  | connect_target ↦ error
  | accept_stream ↦ level_or warn (or_reason (connection_error_in_chain failure.error) close_reason)
  | proxy_stream ↦
      proxy_stream_level (connection_error_in_chain failure.error) (io_error_in_chain failure.error)
        close_reason
]

unfoldable pub paths_at_failure : PathDiagnostics → PathDiagnostics → PathDiagnostics × Text
paths_at_failure current initial =
    if not current.has_selected && initial.has_selected
    then (initial, text "handshake_fallback")
    else (current, text "current")

-- What is read of a connection.
pub record Connected : Type 0 where
  pub stable_id : ℕ
  pub remote_id : Text
  pub alpn : Text
  pub paths : List NetworkPath
  pub lost_packets : ℕ
  pub lost_bytes : ℕ

pub record HandshakeFailed : Type 0 where
  pub level : DiagnosticLevel
  pub stage : Text
  pub peer_addr : Text
  pub local_addr : Text
  pub available_services : Text
  pub error : Text

pub record HandshakeDone : Type 0 where
  pub connection_id : ℕ
  pub peer : Text
  pub route : Route
  pub alpn : Text
  pub path_snapshot : Text
  pub paths : PathDiagnostics

-- A connection's last event. `details` is the alpn and the error of a failure, and the bytes that
-- were copied each way otherwise.
pub record Event (Details : Type 0) : Type 0 where
  pub level : DiagnosticLevel
  pub stage : Text
  pub connection_id : ℕ
  pub connection_age_ms : ℕ
  pub peer : Text
  pub route : Route
  pub path_count : ℕ
  pub path_snapshot : Text
  pub selected : PathDiagnostics
  pub close_reason : Text
  pub quic_lost_packets : ℕ
  pub quic_lost_bytes : ℕ
  pub details : Details

unfoldable pub log_handshake_failure : Text → Text → Text → ConnectingError → Text → HandshakeFailed
unfolding connecting_error_level
log_handshake_failure transport_peer_addr transport_local_addr available_services reason shown =
    record {
      level = connecting_error_level reason;
      stage = text "handshake";
      peer_addr = transport_peer_addr;
      local_addr = transport_local_addr;
      available_services = available_services;
      error = shown;
    }

unfoldable pub log_connection_accepted : Connected → Route → PathDiagnostics × HandshakeDone
unfolding path_diagnostics
log_connection_accepted conn route =
    let paths = path_diagnostics conn.paths in
    (
      paths,
      record {
        connection_id = conn.stable_id;
        peer = conn.remote_id;
        route = route;
        alpn = conn.alpn;
        path_snapshot = text "handshake";
        paths = paths;
      },
    )

abbrev pub close_reason_text : (ConnectionError → Text) → Option ConnectionError → Text
close_reason_text show_reason none = text "<connection still open>"
close_reason_text show_reason (some reason) = show_reason reason

-- `show_reason` and `show_error` are the formatting of errors.
module _ (show_reason : ConnectionError → Text) (show_error : List Cause → Text) (conn : Connected)
    (route : Route) (initial_paths : PathDiagnostics) (connection_age : ℕ) where
  abbrev pub event_at :
      {Details : Type 0} → DiagnosticLevel → Text → PathDiagnostics → Text → Details → Event Details
  event_at level stage current_paths close_reason details =
      let (paths, path_snapshot) = paths_at_failure current_paths initial_paths in
      record {
        level = level;
        stage = stage;
        connection_id = conn.stable_id;
        connection_age_ms = as_millis connection_age;
        peer = conn.remote_id;
        route = route;
        path_count = current_paths.count;
        path_snapshot = path_snapshot;
        selected = paths;
        close_reason = close_reason;
        quic_lost_packets = conn.lost_packets;
        quic_lost_bytes = conn.lost_bytes;
        details = details;
      }

  unfoldable pub log_established_failure :
      IncomingFailure → Option ConnectionError → Event (Text × Text)
  unfolding path_diagnostics paths_at_failure incoming_failure_level as_str
  log_established_failure failure close_reason =
      event_at (incoming_failure_level failure close_reason) (as_str failure.stage)
        (path_diagnostics conn.paths) (close_reason_text show_reason close_reason)
        (conn.alpn, show_error failure.error)

  unfoldable pub log_connection_finished : PumpStats → ConnectionError → Event (ℕ × ℕ)
  unfolding path_diagnostics paths_at_failure connection_error_level
  log_connection_finished pump_stats close_reason =
      event_at (connection_error_level close_reason) (text "closed") (path_diagnostics conn.paths)
        (show_reason close_reason) (pump_stats.up_bytes, pump_stats.down_bytes)

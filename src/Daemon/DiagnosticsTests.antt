-- ===== src/Daemon/DiagnosticsTests.antt =====
-- Runs of src/daemon/diagnostics.rs, and the theorems at concrete inputs.
use iroh_proxy.Common.{◌≡◌, refl, ◌*◌, true, false, none, some, List, [], ◌∷◌}
use iroh_proxy.Common.Text.{Text, text}
use iroh_proxy.Proxy.Errors.{
  ConnectionError, broken_pipe, other_kind, timed_out, reset, locally_closed, application_closed,
  handshake_failure, is_disconnect,
}
use iroh_proxy.Proxy.Pump.{PumpStats}
use iroh_proxy.Daemon.State.{Route}
use iroh_proxy.Daemon.Diagnostics.{
  Connected, Cause, proxy_stream, caused_by_connection, caused_by_io, message, IncomingFailure,
  info, warn, error, NetworkPath, path_diagnostics, connection_error_in_chain, io_error_in_chain,
  connection_error_level, connecting_error_level, incoming_failure_level, paths_at_failure, as_str,
  log_handshake_failure, log_connection_accepted, log_established_failure, log_connection_finished,
}
use iroh_proxy.Daemon.Reported.{Reports, log_established_failure-Reports}

diagnostics_run : Unit {0}
unfolding is_disconnect path_diagnostics connection_error_in_chain io_error_in_chain as_str
    connection_error_level connecting_error_level incoming_failure_level paths_at_failure
    log_handshake_failure log_connection_accepted log_established_failure log_connection_finished
diagnostics_run = tt

abbrev relay : NetworkPath
relay = record {
  is_selected = true;
  is_relay = true;
  is_ip = false;
  remote_addr = text "r";
  local_addr = text "l";
  rtt = 125 * 1000000;
}

abbrev idle_path : NetworkPath
idle_path = record relay { is_selected = false }

abbrev broke : IncomingFailure
broke = record {
  stage = proxy_stream;
  error = message (text "copy failed") ∷ caused_by_io broken_pipe ∷ [];
}

abbrev show_reason : ConnectionError → Text
show_reason reason = text "closed"

abbrev show_error : List Cause → Text
show_error causes = text "failed"

abbrev web : Route
web = record { name = text "web"; target = text "h:1" }

abbrev over : List NetworkPath → Connected
over paths = record {
  stable_id = 1;
  remote_id = text "a";
  alpn = text "p";
  paths = paths;
  lost_packets = 2;
  lost_bytes = 3;
}

abbrev counted : PumpStats
counted = record { up_bytes = 3; down_bytes = 4; timed_out = false }

diagnostics_tests :
    (incoming_failure_level broke none ≡ info)
    × (incoming_failure_level broke (some timed_out) ≡ warn)
    × (incoming_failure_level
          (record broke { error = caused_by_io other_kind ∷ [] })
          (some locally_closed)
        ≡ error)
    × (incoming_failure_level (record broke { error = caused_by_connection timed_out ∷ [] }) none
        ≡ warn)
    × ((log_handshake_failure (text "p") (text "l") (text "web") handshake_failure (text "e")).level
        ≡ warn)
    × ((log_established_failure show_reason show_error
          (over (idle_path ∷ idle_path ∷ []))
          web
          (log_connection_accepted (over (relay ∷ [])) web).0
          5000000
          broke
          none).path_snapshot
        ≡ text "handshake_fallback")
    × ((log_connection_finished show_reason show_error
          (over (relay ∷ []))
          web
          (path_diagnostics [])
          0
          counted
          (application_closed 0)).level
        ≡ info)
unfolding diagnostics_run
diagnostics_tests = (refl, refl, refl, refl, refl, refl, refl)

log_established_failure-Reports_example :
    Reports (over (idle_path ∷ [])) (path_diagnostics (relay ∷ [])) 5000000 broke (some reset) (
      log_established_failure show_reason show_error
        (over (idle_path ∷ []))
        web
        (path_diagnostics (relay ∷ []))
        5000000
        broke
        (some reset))
log_established_failure-Reports_example =
    log_established_failure-Reports show_reason show_error (over (idle_path ∷ [])) web
      (path_diagnostics (relay ∷ [])) 5000000 broke (some reset)

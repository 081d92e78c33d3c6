-- ===== src/Daemon/Reported.antt =====
-- src/daemon/diagnostics.rs: what a failure's event tells.
use iroh_proxy.Common.{
  ℕ, ◌*◌, ◌^◌, ◌≤◌, ◌<◌, ◌≡◌, refl, Bool, true, false, not, ◌&&◌, ◌||◌, Option, none, some, List,
  [], ◌∷◌, length, find, any, arith, is_none, if◌then◌else◌,
}
use iroh_proxy.Proxy.Errors.{
  ErrorKind, ConnectionError, version_mismatch, transport_error, connection_closed, reset,
  timed_out, locally_closed, cids_exhausted, application_closed,
}
use iroh_proxy.Common.Text.{Text}
use iroh_proxy.Daemon.State.{Route}
use iroh_proxy.Daemon.Diagnostics.{
  Connected, Cause, Stage, accept_stream, connect_target, proxy_stream, IncomingFailure,
  DiagnosticLevel, info, warn, error, NetworkPath, PathDiagnostics, diagnose, path_diagnostics,
  connection_error_in_chain, io_error_in_chain, connection_error_level, is_some_disconnect,
  or_reason, level_or, proxy_stream_level, Event, log_established_failure,
}

abbrev is_error : DiagnosticLevel → Bool
is_error info = false
is_error warn = false
is_error error = true

abbrev is_target : Stage → Bool
is_target accept_stream = false
is_target connect_target = true
is_target proxy_stream = false

abbrev is_stream : Stage → Bool
is_stream accept_stream = false
is_stream connect_target = false
is_stream proxy_stream = true

-- The ends of a connection that neither the peer nor the network brings about.
abbrev is_fault : Option ConnectionError → Bool
is_fault none = false
is_fault (some version_mismatch) = true
is_fault (some cids_exhausted) = true
is_fault (some transport_error) = false
is_fault (some connection_closed) = false
is_fault (some reset) = false
is_fault (some timed_out) = false
is_fault (some locally_closed) = false
is_fault (some (application_closed code)) = false

is_error-connection_error_level :
    (reason : ConnectionError) → is_error (connection_error_level reason) ≡ is_fault (some reason)
unfolding connection_error_level
is_error-connection_error_level reason = ground arith

-- Whether the failure is the server's: its target, a fault of the connection, or a stream that broke
-- otherwise than by a disconnect.
abbrev pub is_serious : IncomingFailure → Option ConnectionError → Bool
is_serious failure close_reason =
    let reason = connection_error_in_chain failure.error in
    is_target failure.stage
    || is_fault reason
    || (is_none reason
        && (if is_stream failure.stage && not (is_some_disconnect (io_error_in_chain failure.error))
            then true
            else is_fault close_reason))

serious_lem :
    (stage : Stage) (chain close_reason : Option ConnectionError) (io : Option ErrorKind)
    → is_error (elim stage [
      | connect_target ↦ error
      | accept_stream ↦ level_or warn (or_reason chain close_reason)
      | proxy_stream ↦ proxy_stream_level chain io close_reason
    ])
      ≡ (is_target stage
          || is_fault chain
          || (is_none chain
              && (if is_stream stage && not (is_some_disconnect io)
                  then true
                  else is_fault close_reason)))
serious_lem connect_target chain close_reason io = refl
serious_lem accept_stream none none io = refl
serious_lem accept_stream none (some reason) io = is_error-connection_error_level reason
serious_lem accept_stream (some reason) close_reason io =
    ground (arith, is_error-connection_error_level reason)
serious_lem proxy_stream (some reason) close_reason io =
    ground (arith, is_error-connection_error_level reason)
serious_lem proxy_stream none none io = ground arith
serious_lem proxy_stream none (some reason) io =
    ground (arith, is_error-connection_error_level reason)

is_some-find :
    (paths : List NetworkPath) (n : ℕ)
    → (diagnose n (find (λ path. path.is_selected) paths)).has_selected
      ≡ any (λ path. path.is_selected) paths
is_some-find [] n = refl
is_some-find (path ∷ paths) n = ground (arith, is_some-find paths n)

pub record Reports (conn : Connected) (initial_paths : PathDiagnostics) (connection_age : ℕ)
    (failure : IncomingFailure) (close_reason : Option ConnectionError)
    (event : Event (Text × Text)) : Type 0 where
  pub severity : is_error event.level ≡ is_serious failure close_reason
  pub shows :
      event.selected.has_selected
      ≡ (any (λ path. path.is_selected) conn.paths || initial_paths.has_selected)
  pub latest : event.selected ≡ (
      if not (any (λ path. path.is_selected) conn.paths) && initial_paths.has_selected
      then initial_paths
      else path_diagnostics conn.paths)
  pub counted : event.path_count ≡ length conn.paths
  pub age_fits : event.connection_age_ms < 2 ^ 64
  pub age_floor : event.connection_age_ms * 1000000 ≤ connection_age

-- The event of a failed connection is an error exactly if the failure is serious: the target cannot
-- be reached, the first connection error of the chain, or without one the close reason, is a version
-- mismatch or the end of the connection ids, or a stream without such a chain broke otherwise than by
-- a disconnect. It shows a selected path if one is known from now or the handshake, the handshake's
-- only if there is none now; it counts the paths of now; and its age is in whole milliseconds of 64
-- bits, not above the connection's age.
pub log_established_failure-Reports :
    (show_reason : ConnectionError → Text) (show_error : List Cause → Text) (conn : Connected)
    (route : Route) (initial_paths : PathDiagnostics) (connection_age : ℕ)
    (failure : IncomingFailure) (close_reason : Option ConnectionError)
    → Reports conn initial_paths connection_age failure close_reason (
        log_established_failure show_reason show_error conn route initial_paths connection_age
          failure close_reason)
unfolding log_established_failure
log_established_failure-Reports show_reason show_error conn route initial_paths connection_age
      failure close_reason =
    record {
      severity =
          serious_lem failure.stage (connection_error_in_chain failure.error) close_reason
            (io_error_in_chain failure.error);
      shows = ground (arith, is_some-find conn.paths (length conn.paths));
      latest = ground (arith, is_some-find conn.paths (length conn.paths));
      counted = counted_lem (find (λ path. path.is_selected) conn.paths);
      age_fits = omega arith;
      age_floor = omega arith;
    }
  where
    counted_lem :
        (o : Option NetworkPath) → (diagnose (length conn.paths) o).count ≡ length conn.paths
    counted_lem none = refl
    counted_lem (some path) = refl

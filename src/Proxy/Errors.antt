-- ===== src/Proxy/Errors.antt =====
-- src/proxy.rs: which errors of a connection are worth another attempt, and which end a copy as a
-- mere disconnect. The errors are those of std::io and of the iroh crate, as far as the code tells
-- them apart.
use iroh_proxy.Common.{ℕ, Bool, true, false, Option}
use iroh_proxy.Proxy.Retry.{RetryPolicy, Attempts, Finish, retry_with_backoff}

pub data ErrorKind : Type 0 where
  broken_pipe connection_reset connection_aborted unexpected_eof not_connected : ErrorKind
  other_kind : ErrorKind

-- An application's close has its code.
pub data ConnectionError : Type 0 where
  version_mismatch transport_error connection_closed reset timed_out locally_closed :
      ConnectionError
  cids_exhausted : ConnectionError
  application_closed : ℕ → ConnectionError

pub data ConnectingError : Type 0 where
  connection_error : ConnectionError → ConnectingError
  internal_consistency_error handshake_failure locally_rejected other_connecting : ConnectingError

pub data ConnectError : Type 0 where
  no_address other_options other_connect : ConnectError
  connecting : ConnectingError → ConnectError
  connection : ConnectionError → ConnectError

unfoldable pub is_disconnect : ErrorKind → Bool
is_disconnect broken_pipe = true
is_disconnect connection_reset = true
is_disconnect connection_aborted = true
is_disconnect unexpected_eof = true
is_disconnect not_connected = true
is_disconnect other_kind = false

unfoldable pub is_transient_connection_error : ConnectionError → Bool
is_transient_connection_error version_mismatch = false
is_transient_connection_error transport_error = false
is_transient_connection_error connection_closed = false
is_transient_connection_error reset = true
is_transient_connection_error timed_out = true
is_transient_connection_error locally_closed = false
is_transient_connection_error cids_exhausted = false
is_transient_connection_error (application_closed code) = false

abbrev pub is_transient_connecting : ConnectingError → Bool
is_transient_connecting (connection_error source) = is_transient_connection_error source
is_transient_connecting internal_consistency_error = false
is_transient_connecting handshake_failure = false
is_transient_connecting locally_rejected = false
is_transient_connecting other_connecting = false

unfoldable pub is_transient_connect_error : ConnectError → Bool
unfolding is_transient_connection_error
is_transient_connect_error no_address = true
is_transient_connect_error other_options = false
is_transient_connect_error other_connect = false
is_transient_connect_error (connecting error) = is_transient_connecting error
is_transient_connect_error (connection source) = is_transient_connection_error source

-- `attempts` is what `connect_remote` does.
unfoldable pub connect_remote_with_retry :
    {Connection : Type 0}
    → RetryPolicy
    → Attempts ConnectError Connection
    → ℕ
    → Option (Finish ConnectError Connection)
unfolding retry_with_backoff is_transient_connect_error
connect_remote_with_retry policy attempts started =
    retry_with_backoff policy is_transient_connect_error attempts started

-- ===== src/Proxy/Tests.antt =====
-- Runs of src/proxy.rs, and the theorems at concrete inputs.
use iroh_proxy.Common.{
  Result, ◌+◌, nat_eq, ℕ, ◌≡◌, refl, Bool, true, false, none, some, [], ◌∷◌, ok, err, arith, ◌*◌,
  ◌^◌, min, if◌then◌else◌, ltb, map,
}
use iroh_proxy.Common.Text.{text}
use iroh_proxy.Common.Dict.{insert, remove, keys}
use iroh_proxy.Daemon.Connections.{
  ActiveConnection, ConnectionRegistry, register, empty_registry, drop_guard,
}
use iroh_proxy.Proxy.Retry.{
  RetryPolicy, Attempts, giving_up, failed, timed_out_during, timed_out_following, Finish,
  default_policy, millis, retry_with_backoff,
}
use iroh_proxy.Proxy.Retrying.{
  Retried, retry_with_backoff-Retried, backoff_after, backoff_after_lem,
}
use iroh_proxy.Proxy.Errors.{
  ConnectError, no_address, connecting, connection, handshake_failure, timed_out,
  is_transient_connect_error, connect_remote_with_retry,
}
use iroh_proxy.Proxy.Connecting.{Connects, connect_remote_with_retry-Connects}
use iroh_proxy.Proxy.Pump.{
  Streams, bytes, Pumped, pump_streams, forward_tcp_conn, Forwarded, finished, aborted,
}
use iroh_proxy.Proxy.Pumping.{Pumps, pump_streams-Pumps, Released, forward_tcp_conn-Released}

-- An error that says whether it is retryable.
abbrev retryable : Bool → Bool
retryable e = e

-- Transient failures, then a value from the attempt `first` on; each takes a millisecond.
abbrev recovers_at : ℕ → Attempts Bool ℕ
recovers_at first = record {
  outcome = λ n. if ltb n first then err true else ok n;
  took = λ n. millis 1;
  timer_late = λ n. 0;
  sleep_late = λ n. 0;
}

retry_recovers :
    retry_with_backoff default_policy retryable (recovers_at 3) 0
    ≡ some (record { result = ok 3; attempts = 3; at = millis 1503 })
unfolding retry_with_backoff
retry_recovers = refl

retry_gives_up :
    retry_with_backoff default_policy retryable (recovers_at 9) 0
    ≡ some (record { result = err (giving_up true 4); attempts = 4; at = millis 3504 })
unfolding retry_with_backoff
retry_gives_up = refl

abbrev permanent : Attempts Bool ℕ
permanent = record (recovers_at 9) { outcome = λ n. err false }

retry_permanent :
    retry_with_backoff default_policy retryable permanent 0
    ≡ some (record { result = err (failed false); attempts = 1; at = millis 1 })
unfolding retry_with_backoff
retry_permanent = refl

abbrev endless : Attempts Bool ℕ
endless = record (recovers_at 9) { took = λ n. millis 40000 }

retry_times_out :
    retry_with_backoff default_policy retryable endless 0
    ≡ some (record {
      result = err (timed_out_during (millis 30000) 1);
      attempts = 1;
      at = millis 30000;
    })
unfolding retry_with_backoff
retry_times_out = refl

abbrev short_deadline : RetryPolicy
short_deadline = record default_policy { total_timeout = millis 600 }

retry_cut_short :
    retry_with_backoff short_deadline retryable (recovers_at 9) 0
    ≡ some (record {
      result = err (timed_out_following (millis 600) 2);
      attempts = 2;
      at = millis 600;
    })
unfolding retry_with_backoff
retry_cut_short = refl

backoff_doubles_and_caps :
    map (backoff_after default_policy) (1 ∷ 2 ∷ 3 ∷ 4 ∷ 5 ∷ [])
    ≡ map millis (1000 ∷ 2000 ∷ 4000 ∷ 5000 ∷ 5000 ∷ [])
unfolding backoff_after
backoff_doubles_and_caps = refl

retry_with_backoff-Retried_example :
    (f : Finish Bool ℕ) × (retry_with_backoff default_policy retryable (recovers_at 3) 7 ≡ some f)
    × Retried default_policy retryable (recovers_at 3) 7 0 0 f
retry_with_backoff-Retried_example =
    retry_with_backoff-Retried default_policy retryable (recovers_at 3) 7 0 0 (ground arith)
      (λ n. omega arith) (λ n. omega arith)

third_wait : backoff_after default_policy 5 ≡ min (millis 500 * 2 ^ 5) (millis 5000)
third_wait = backoff_after_lem default_policy 4 (ground arith)

-- A request of 3 bytes and a response of 4.
abbrev answered : Streams
answered = record {
  up_end = some 10;
  up = ok 3;
  down_end = some 25;
  down = bytes 4;
  timer_late = 0;
}

pump_bidirectional :
    pump_streams answered none
    ≡ some (record {
      result = ok (record { up_bytes = 3; down_bytes = 4; timed_out = false });
      at = 25;
      down_task = finished;
    })
unfolding pump_streams
pump_bidirectional = refl

abbrev unanswered : Streams
unanswered = record answered { down_end = none }

pump_timeout_stops_response :
    pump_streams unanswered (some 100)
    ≡ some (record {
      result = ok (record { up_bytes = 3; down_bytes = 0; timed_out = true });
      at = 110;
      down_task = aborted;
    })
unfolding pump_streams
pump_timeout_stops_response = refl

pump_streams-Pumps_example :
    (p : Pumped) × (pump_streams unanswered (some 100) ≡ some p) × Pumps unanswered 110 p
pump_streams-Pumps_example = pump_streams-Pumps unanswered 10 100 refl

abbrev ssh : ActiveConnection
ssh = record { src = text "127.0.0.1:5000"; kind = text "forward"; dst = text "ssh" }

abbrev start : ConnectionRegistry
start = record empty_registry { active = (7, ssh) ∷ []; next_id = 8 }

forward_tcp_conn-Released_example :
    (f : Forwarded Bool) × (forward_tcp_conn {E = Bool}
        (ok tt)
        (some unanswered)
        ssh
        100
        (drop_guard 7)
        start
      ≡ some f)
    × Released 8 (drop_guard 7 (register ssh start).1) f
unfolding register drop_guard insert remove keys
forward_tcp_conn-Released_example =
    forward_tcp_conn-Released (some unanswered) ssh 100 (drop_guard 7) start (tt, tt)
      (λ streams h. (10, ground arith))

-- The first attempt finds no address, the second is timed out, the third succeeds.
abbrev discovers : ℕ → Result ConnectError ℕ
discovers n =
    if nat_eq n 1 then err no_address else if nat_eq n 2 then err (connection timed_out) else ok 9

abbrev discovered : Attempts ConnectError ℕ
discovered = record {
  outcome = discovers;
  took = λ n. millis 10;
  timer_late = λ n. 1;
  sleep_late = λ n. 2;
}

connect_tests :
    (connect_remote_with_retry default_policy discovered 0
      ≡ some (record { result = ok 9; attempts = 3; at = millis 1530 + 4 }))
    × (is_transient_connect_error (connecting handshake_failure) ≡ false)
unfolding connect_remote_with_retry
connect_tests = (refl, refl)

connect_remote_with_retry-Connects_example :
    (f : Finish ConnectError ℕ) × (connect_remote_with_retry default_policy discovered 5 ≡ some f)
    × Connects discovered 5 2 1 f
connect_remote_with_retry-Connects_example =
    connect_remote_with_retry-Connects discovered 5 2 1 (λ n. omega arith) (λ n. omega arith)

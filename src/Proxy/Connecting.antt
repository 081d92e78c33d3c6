-- ===== src/Proxy/Connecting.antt =====
-- src/proxy.rs: `connect_remote_with_retry` with the default policy.
use iroh_proxy.Common.{ℕ, ◌+◌, ◌≤◌, ◌<◌, ◌≡◌, true, some, err, ◌⊎◌, arith}
use iroh_proxy.Proxy.Retry.{Attempts, Finish, default_policy, millis}
use iroh_proxy.Proxy.Retrying.{retry_with_backoff-Retried}
use iroh_proxy.Proxy.Errors.{
  ConnectError, no_address, connecting, connection, connection_error, reset, timed_out,
  is_transient_connect_error, connect_remote_with_retry,
}

-- The errors that may go away: no address is known yet, or the connection timed out or was reset.
abbrev pub Temporary : ConnectError → Type 0
Temporary e =
    (e ≡ no_address)
    ⊎ (e ≡ connecting (connection_error reset))
    ⊎ (e ≡ connecting (connection_error timed_out))
    ⊎ (e ≡ connection reset)
    ⊎ (e ≡ connection timed_out)

is_transient_connect_error-Temporary :
    (e : ConnectError) → is_transient_connect_error e ≡ true → Temporary e
unfolding is_transient_connect_error
is_transient_connect_error-Temporary e h = ground arith

module _ {Connection : Type 0} (attempts : Attempts ConnectError Connection) (started : ℕ) where
  pub record Connects (sleep_slack timer_slack : ℕ) (f : Finish ConnectError Connection)
      : Type 0 where
    pub some_attempt : 1 ≤ f.attempts
    pub few_attempts : f.attempts ≤ 4
    pub in_time : f.at ≤ started + millis 30000 + sleep_slack + timer_slack
    pub retried :
        (i : ℕ)
        → 1 ≤ i
        → i < f.attempts
        → (e : ConnectError) × (attempts.outcome i ≡ err e) × Temporary e

  -- With the default policy a connect makes one to four attempts and returns within 30 seconds and
  -- the lateness of a sleep and of a timer, whose bounds are given; every attempt but the last failed
  -- because no address was known, or because the connection was reset or timed out.
  pub connect_remote_with_retry-Connects :
      (sleep_slack timer_slack : ℕ)
      → ((n : ℕ) → attempts.sleep_late n ≤ sleep_slack)
      → ((n : ℕ) → attempts.timer_late n ≤ timer_slack)
      → (f : Finish ConnectError Connection) × (connect_remote_with_retry default_policy attempts
            started
          ≡ some f)
        × Connects sleep_slack timer_slack f
  unfolding connect_remote_with_retry
  connect_remote_with_retry-Connects sleep_slack timer_slack sleeps timers =
      let (f, e, retried) =
        retry_with_backoff-Retried default_policy is_transient_connect_error attempts started
          sleep_slack timer_slack (ground arith) sleeps timers in
      (
        f,
        e,
        record {
          some_attempt = retried.attempted;
          few_attempts = retried.limited;
          in_time = retried.in_time;
          retried = λ i low high.
              let (error, fails, transient) = retried.earlier i low high in
              (error, fails, is_transient_connect_error-Temporary error transient);
        },
      )

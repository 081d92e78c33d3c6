-- ===== src/Proxy/Retry.antt =====
-- src/proxy.rs: the retry policy and `retry_with_backoff`.
use iroh_proxy.Common.{
  ℕ, zero, suc, ◌+◌, ◌-◌, ◌*◌, ◌%◌, ◌^◌, max, min, Bool, Option, none, some, not, Result, ok, err,
  if◌then◌else◌, ltb, leb, nat_eq,
}

-- `Duration::MAX` in nanoseconds.
abbrev pub duration_max : ℕ
duration_max = 2 ^ 64 * 1000000000 - 1

abbrev pub millis : ℕ → ℕ
millis n = n * 1000000

pub record RetryPolicy : Type 0 where
  pub max_attempts : ℕ
  pub initial_backoff : ℕ
  pub max_backoff : ℕ
  pub total_timeout : ℕ

abbrev pub default_policy : RetryPolicy
default_policy = record {
  max_attempts = 4;
  initial_backoff = millis 500;
  max_backoff = millis 5000;
  total_timeout = millis 30000;
}

abbrev pub attempt_limit : RetryPolicy → ℕ
attempt_limit policy = max policy.max_attempts 1

unfoldable pub next_backoff : ℕ → ℕ → ℕ
next_backoff current limit = min (min (current * 2) duration_max) limit

-- The attempts and the clock: what the attempt of each number returns and how long it takes, and by
-- how much the attempt's timer and the sleep after it fire late.
pub record Attempts {ℓ κ} (E : Type κ) (T : Type ℓ) : Type (ℓ ⊔ κ) where
  pub outcome : ℕ → Result E T
  pub took : ℕ → ℕ
  pub timer_late : ℕ → ℕ
  pub sleep_late : ℕ → ℕ

pub data RetryError {κ} (E : Type κ) : Type κ where
  failed : E → RetryError E
  giving_up : E → ℕ → RetryError E
  timed_out_during timed_out_following : ℕ → ℕ → RetryError E

-- The variables of the loop, and the clock.
pub record Loop : Type 0 where
  pub attempt : ℕ
  pub backoff : ℕ
  pub now : ℕ

-- How the call ends: its result, the attempts it made, and when.
pub record Finish {ℓ κ} (E : Type κ) (T : Type ℓ) : Type (ℓ ⊔ κ) where
  pub result : Result (RetryError E) T
  pub attempts : ℕ
  pub at : ℕ

pub data Next {ℓ κ} (E : Type κ) (T : Type ℓ) : Type (ℓ ⊔ κ) where
  finish : Finish E T → Next E T
  again : Loop → Next E T

module _ {ℓ κ} {E : Type κ} {T : Type ℓ} (policy : RetryPolicy) (is_retryable : E → Bool) where
  -- The end of a sleep that began at `s.now`, which ends the call if the deadline cut it short.
  unfoldable pub slept : Loop → ℕ → ℕ → ℕ → Next E T
  unfolding next_backoff
  slept s started sleep_for late =
      let woken = s.now + sleep_for + late in
      if ltb sleep_for s.backoff
      then finish (record {
        result = err (timed_out_following (woken - started) s.attempt);
        attempts = s.attempt;
        at = woken;
      })
      else again (record {
        attempt = (s.attempt + 1) % 2 ^ 32;
        backoff = next_backoff s.backoff policy.max_backoff;
        now = woken;
      })

  -- The arms of the match on an attempt's result, at the time it ended.
  unfoldable pub handle : Loop → ℕ → ℕ → Result E T → Next E T
  unfolding slept
  handle s started late (ok value) =
      finish (record { result = ok value; attempts = s.attempt; at = s.now })
  handle s started late (err e) =
      let remaining = started + policy.total_timeout - s.now in
      if not (is_retryable e)
      then finish (record { result = err (failed e); attempts = s.attempt; at = s.now })
      else if ltb s.attempt (attempt_limit policy)
      then if nat_eq remaining 0
        then finish (record {
          result = err (timed_out_following (s.now - started) s.attempt);
          attempts = s.attempt;
          at = s.now;
        })
        else slept s started (min s.backoff remaining) late
      else if ltb 1 s.attempt
      then finish
          (record { result = err (giving_up e s.attempt); attempts = s.attempt; at = s.now })
      else finish (record { result = err (failed e); attempts = s.attempt; at = s.now })

  -- One turn of the loop. `timeout_at` polls the attempt when its timer fires, and so misses only an
  -- attempt that takes longer.
  unfoldable pub turn : Attempts E T → ℕ → Loop → Next E T
  unfolding handle
  turn run started s =
      let fires = max s.now (started + policy.total_timeout) + run.timer_late s.attempt in
      if leb (s.now + run.took s.attempt) fires
      then handle (record s { now = s.now + run.took s.attempt }) started (run.sleep_late s.attempt)
          (run.outcome s.attempt)
      else finish (record {
        result = err (timed_out_during (fires - started) s.attempt);
        attempts = s.attempt;
        at = fires;
      })

  unfoldable pub retry_loop : ℕ → Attempts E T → ℕ → Loop → Option (Finish E T)
  unfolding turn
  retry_loop zero run started s = none
  retry_loop (suc fuel) run started s = elim (turn run started s) [
    | finish f ↦ some f
    | again t ↦ retry_loop fuel run started t
  ]

  -- One turn for each attempt is enough fuel.
  unfoldable pub retry_with_backoff : Attempts E T → ℕ → Option (Finish E T)
  unfolding retry_loop
  retry_with_backoff run started =
      retry_loop (attempt_limit policy) run started
        (record { attempt = 1; backoff = policy.initial_backoff; now = started })

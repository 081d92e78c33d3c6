-- ===== src/Proxy/Retrying.antt =====
-- src/proxy.rs: what `retry_with_backoff` does over all of its attempts.
use iroh_proxy.Common.{
  ℕ, zero, suc, ◌+◌, ◌-◌, ◌*◌, ◌%◌, ◌^◌, ◌≤◌, ◌<◌, ◌≡◌, refl, subst, ◌⊎◌, inl, inr, min, max, Bool,
  true, false, Option, some, Result, ok, err, arith, Bool-cases, ltb, leb, leb→le,
}
use native.Mathlib.Nat.{pow-suc}
use iroh_proxy.Proxy.Retry.{
  RetryPolicy, duration_max, Attempts, RetryError, failed, giving_up, timed_out_during,
  timed_out_following, Loop, Finish, Next, finish, again, attempt_limit, next_backoff, handle, turn,
  retry_loop, retry_with_backoff,
}

module _ {E T : Type 0} (policy : RetryPolicy) (is_retryable : E → Bool) (run : Attempts E T)
    (started sleep_slack timer_slack : ℕ) where
  abbrev pub deadline : ℕ
  deadline = started + policy.total_timeout

  -- An attempt that failed with an error worth another attempt.
  abbrev pub Transient : ℕ → Type 0
  Transient i = (e : E) × (run.outcome i ≡ err e) × (is_retryable e ≡ true)

  -- What a result says about the last attempt, made as number `n`, and the time of the end.
  abbrev pub Explains : Result (RetryError E) T → ℕ → ℕ → Type 0
  Explains (ok value) n at = run.outcome n ≡ ok value
  Explains (err (failed e)) n at =
      (run.outcome n ≡ err e) × ((is_retryable e ≡ false) ⊎ (attempt_limit policy ≡ 1))
  Explains (err (giving_up e k)) n at =
      (run.outcome n ≡ err e) × (k ≡ n) × (n ≡ attempt_limit policy) × (1 < n)
  Explains (err (timed_out_during elapsed k)) n at =
      (k ≡ n) × (deadline ≤ at) × (elapsed + started ≡ at)
  Explains (err (timed_out_following elapsed k)) n at =
      Transient n × (k ≡ n) × (deadline ≤ at) × (elapsed + started ≡ at)

  pub record Retried (f : Finish E T) : Type 0 where
    pub attempted : 1 ≤ f.attempts
    pub limited : f.attempts ≤ attempt_limit policy
    pub earlier : (i : ℕ) → 1 ≤ i → i < f.attempts → Transient i
    pub in_time : f.at ≤ deadline + sleep_slack + timer_slack
    pub explained : Explains f.result f.attempts f.at

  record Running (s : Loop) : Type 0 where
    attempted : 1 ≤ s.attempt
    limited : s.attempt ≤ attempt_limit policy
    earlier : (i : ℕ) → 1 ≤ i → i < s.attempt → Transient i
    begun : started ≤ s.now
    in_time : s.now ≤ deadline + sleep_slack

  handle_cases :
      (s : Loop) (late : ℕ) (o : Result E T) (P : Next E T → Type 0)
      → ((value : T)
          → o ≡ ok value
          → P (finish (record { result = ok value; attempts = s.attempt; at = s.now })))
      → ((e : E)
          → o ≡ err e
          → (is_retryable e ≡ false) ⊎ ((attempt_limit policy ≤ s.attempt) × (s.attempt ≤ 1))
          → P (finish (record { result = err (failed e); attempts = s.attempt; at = s.now })))
      → ((e : E)
          → o ≡ err e
          → attempt_limit policy ≤ s.attempt
          → 1 < s.attempt
          → P (
              finish (record {
                result = err (giving_up e s.attempt);
                attempts = s.attempt;
                at = s.now;
              })))
      → ((e : E) (at : ℕ)
          → o ≡ err e
          → is_retryable e ≡ true
          → deadline ≤ at
          → s.now ≤ at
          → at ≤ max s.now (deadline + late)
          → P (
              finish (record {
                result = err (timed_out_following (at - started) s.attempt);
                attempts = s.attempt;
                at = at;
              })))
      → ((e : E) (woken : ℕ)
          → o ≡ err e
          → is_retryable e ≡ true
          → s.attempt < attempt_limit policy
          → s.now + s.backoff ≤ deadline
          → woken ≡ s.now + s.backoff + late
          → P (
              again (record {
                attempt = (s.attempt + 1) % 2 ^ 32;
                backoff = next_backoff s.backoff policy.max_backoff;
                now = woken;
              })))
      → P (handle policy is_retryable s started late o)
  unfolding handle
  handle_cases s late (ok value) P done plain gave_up out retry = done value refl
  handle_cases s late (err e) P done plain gave_up out retry = ground (
    arith,
    done,
    plain e refl,
    gave_up e refl,
    out e s.now refl,
    out e (s.now + min s.backoff (deadline - s.now) + late) refl,
    retry e (s.now + min s.backoff (deadline - s.now) + late) refl,
  )

  -- A turn ends the call as `Retried` says, or goes on from the next attempt.
  abbrev Turns : ℕ → Next E T → Type 0
  Turns attempt (finish f) = Retried f
  Turns attempt (again s) = Running s × (s.attempt ≡ attempt + 1)

  one_more :
      (P : ℕ → Type 0) (n : ℕ)
      → ((i : ℕ) → 1 ≤ i → i < n → P i)
      → P n
      → (i : ℕ) → 1 ≤ i
      → i < n + 1
      → P i
  one_more P n before last i low high = elim (Bool-cases (ltb i n)) [
    | inl less ↦ before i low (ground arith)
    | inr same ↦ subst P (ground arith) last
  ]

  handle_lem :
      (s : Loop) (late : ℕ)
      → attempt_limit policy < 2 ^ 32
      → late ≤ sleep_slack
      → 1 ≤ s.attempt
      → s.attempt ≤ attempt_limit policy
      → ((i : ℕ) → 1 ≤ i → i < s.attempt → Transient i)
      → started ≤ s.now
      → s.now ≤ deadline + sleep_slack + timer_slack
      → Turns s.attempt (handle policy is_retryable s started late (run.outcome s.attempt))
  handle_lem s late small on_time attempted limited earlier begun in_time =
      handle_cases s late (run.outcome s.attempt) (Turns s.attempt)
        (λ value eq. ends (ok value) s.now in_time eq)
        (λ e eq why. ends (err (failed e)) s.now in_time (eq, ground arith))
        (λ e eq last several.
          ends (err (giving_up e s.attempt)) s.now in_time (eq, refl, omega arith, several))
        (λ e at eq transient over late_end bound.
          ends (err (timed_out_following (at - started) s.attempt)) at (omega arith)
            ((e, eq, transient), refl, over, omega arith))
        (λ e woken eq transient more fits wakes. (
          record {
            attempted = omega arith;
            limited = omega arith;
            earlier = λ i low high.
                one_more Transient s.attempt earlier (e, eq, transient) i low (omega arith);
            begun = omega arith;
            in_time = omega arith;
          },
          omega arith,
        ))
    where
      ends :
          (result : Result (RetryError E) T) (at : ℕ)
          → at ≤ deadline + sleep_slack + timer_slack
          → Explains result s.attempt at
          → Retried (record { result = result; attempts = s.attempt; at = at })
      ends result at bound why = record {
        attempted = attempted;
        limited = limited;
        earlier = earlier;
        in_time = bound;
        explained = why;
      }

  turn_lem :
      (s : Loop)
      → attempt_limit policy < 2 ^ 32
      → ((n : ℕ) → run.sleep_late n ≤ sleep_slack)
      → ((n : ℕ) → run.timer_late n ≤ timer_slack)
      → Running s
      → Turns s.attempt (turn policy is_retryable run started s)
  unfolding turn
  turn_lem s small sleeps timers inv =
      let fires = max s.now deadline + run.timer_late s.attempt in
      elim (Bool-cases (leb (s.now + run.took s.attempt) fires)) [
        | inl ended ↦ rw ended (
            handle_lem (record s { now = s.now + run.took s.attempt }) (run.sleep_late s.attempt)
              small (sleeps s.attempt) inv.attempted inv.limited inv.earlier (omega arith)
              (omega (arith, leb→le _ _ ended, timers s.attempt)))
        | inr cut ↦ rw cut (record {
          attempted = inv.attempted;
          limited = inv.limited;
          earlier = inv.earlier;
          in_time = omega (arith, timers s.attempt);
          explained = (refl, omega arith, omega arith);
        })
      ]

  retry_loop_lem :
      (fuel : ℕ) (s : Loop)
      → attempt_limit policy < 2 ^ 32
      → ((n : ℕ) → run.sleep_late n ≤ sleep_slack)
      → ((n : ℕ) → run.timer_late n ≤ timer_slack)
      → Running s
      → attempt_limit policy < fuel + s.attempt
      → (f : Finish E T) × (retry_loop policy is_retryable fuel run started s ≡ some f) × Retried f
  unfolding retry_loop
  retry_loop_lem zero s small sleeps timers inv enough = ground arith
  retry_loop_lem (suc fuel) s small sleeps timers inv enough =
      next (turn policy is_retryable run started s) (turn_lem s small sleeps timers inv)
        λ t running step. retry_loop_lem fuel t small sleeps timers running (omega (arith, step))
    where
      Returns : Option (Finish E T) → Type 0
      Returns o = (f : Finish E T) × (o ≡ some f) × Retried f

      next :
          (n : Next E T)
          → Turns s.attempt n
          → ((t : Loop)
              → Running t
              → t.attempt ≡ s.attempt + 1
              → Returns (retry_loop policy is_retryable fuel run started t))
          → Returns (elim n [
            | finish g ↦ some g
            | again t ↦ retry_loop policy is_retryable fuel run started t
          ])
      next (finish f) h rest = (f, refl, h)
      next (again t) (running, step) rest = rest t running step

  -- If the limit of attempts is a `u32` and timers and sleeps fire late by no more than a bound, the
  -- call returns, after at least one attempt and at most the limit, by the deadline and the two
  -- bounds; every attempt but the last failed with a retryable error, and the result says what the
  -- last one did: its value, its error if that is permanent or no other attempt is allowed, its error
  -- after the last of several, or that the deadline passed.
  pub retry_with_backoff-Retried :
      attempt_limit policy < 2 ^ 32
      → ((n : ℕ) → run.sleep_late n ≤ sleep_slack)
      → ((n : ℕ) → run.timer_late n ≤ timer_slack)
      → (f : Finish E T) × (retry_with_backoff policy is_retryable run started ≡ some f) × Retried f
  unfolding retry_with_backoff
  retry_with_backoff-Retried small sleeps timers =
      retry_loop_lem (attempt_limit policy)
        (record { attempt = 1; backoff = policy.initial_backoff; now = started }) small sleeps
        timers
        (record {
          attempted = omega arith;
          limited = omega arith;
          earlier = λ i low high. ground arith;
          begun = omega arith;
          in_time = omega arith;
        })
        (omega arith)

-- The wait after the first attempt and `k` doublings.
unfoldable pub backoff_after : RetryPolicy → ℕ → ℕ
unfolding next_backoff
backoff_after policy zero = policy.initial_backoff
backoff_after policy (suc k) = next_backoff (backoff_after policy k) policy.max_backoff

doubled : (n k : ℕ) → n * 2 ^ suc k ≡ n * 2 ^ k * 2
doubled n k = grind (arith, pow-suc 2 k)

-- If no wait exceeds the largest `Duration`, the wait after `k + 1` doublings is the first wait times
-- 2 ^ (k + 1), or the policy's limit if that is less.
pub backoff_after_lem :
    (policy : RetryPolicy) (k : ℕ)
    → policy.max_backoff ≤ duration_max
    → backoff_after policy (suc k) ≡ min (policy.initial_backoff * 2 ^ suc k) policy.max_backoff
unfolding backoff_after next_backoff
backoff_after_lem policy zero bounded = omega arith
backoff_after_lem policy (suc k) bounded =
    omega (arith, backoff_after_lem policy k bounded, doubled policy.initial_backoff (suc k))

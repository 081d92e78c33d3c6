-- ===== src/Commands/Started.antt =====
-- src/main.rs and src/tui.rs: how the start of a server ends.
use iroh_proxy.Common.{
  ℕ, zero, suc, ◌+◌, ◌≤◌, ◌<◌, ◌≡◌, refl, subst, Bool, true, false, Option, none, some, List, [],
  ◌∷◌, Result, ok, err, arith, length, if_cases, inl, inr, Bool-cases, ltb, ltb→lt,
}
use iroh_proxy.Common.Text.{Text}
use iroh_proxy.Commands.Starting.{
  Waited, wait_failed, running, exited, Launch, StartError, no_executable, spawn_failed,
  waiting_failed, timed_out, exited_while_starting, Found, already_running, started, Launched,
  slept_ms, rounds, server_args, is_answering, poll_once, poll, launched_with, spawn_server,
  ensure_server_running,
}

module _ (launch : Launch) where
  -- The server does not answer yet, and its process still runs.
  abbrev pub Pending : ℕ → Type 0
  Pending k = (is_answering launch k ≡ false) × (launch.wait k ≡ running)

  abbrev pub PendingBefore : ℕ → Type 0
  PendingBefore n = (k : ℕ) → 1 ≤ k → k < n → Pending k

  -- What the loop's result says about the last query, made as number `n`.
  abbrev pub Tells : Result StartError Found → ℕ → Type 0
  Tells (ok already_running) n = ⊥
  Tells (ok started) n = is_answering launch n ≡ true
  Tells (err no_executable) n = ⊥
  Tells (err spawn_failed) n = ⊥
  Tells (err waiting_failed) n = (is_answering launch n ≡ false) × (launch.wait n ≡ wait_failed)
  Tells (err (exited_while_starting status)) n =
      (is_answering launch n ≡ false) × (launch.wait n ≡ exited status)
  Tells (err timed_out) n = Pending n × (n ≡ rounds)

  pub record Polled (r : Result StartError Found × ℕ) : Type 0 where
    pub some_sleep : 1 ≤ r.1
    pub few_sleeps : r.1 ≤ rounds
    pub earlier : PendingBefore r.1
    pub told : Tells r.0 r.1

  poll_once_cases :
      (k : ℕ) (P : Option (Result StartError Found) → Type 0)
      → ((r : Result StartError Found) → Tells r k → P (some r))
      → (Pending k → P none)
      → P (poll_once launch k)
  unfolding poll_once
  poll_once_cases k P ends goes = elim (Bool-cases (is_answering launch k)) [
    | inl e ↦ rw e (ends (ok started) e)
    | inr e ↦ rw e (waits (launch.wait k) refl e)
  ]
    where
      waits :
          (w : Waited)
          → launch.wait k ≡ w
          → is_answering launch k ≡ false
          → P (elim w [
            | wait_failed ↦ some (err waiting_failed)
            | exited status ↦ some (err (exited_while_starting status))
            | running ↦ none
          ])
      waits wait_failed e silent = ends (err waiting_failed) (silent, e)
      waits (exited status) e silent = ends (err (exited_while_starting status)) (silent, e)
      waits running e silent = goes (silent, e)

  Pending-snoc : (k : ℕ) → PendingBefore (suc k) → Pending (k + 1) → PendingBefore (suc (k + 1))
  Pending-snoc k earlier here j low high = elim (Bool-cases (ltb j (suc k))) [
    | inl p ↦ earlier j low (ltb→lt j (suc k) p)
    | inr p ↦ subst Pending (ground arith) here
  ]

  poll-Polled :
      (left k : ℕ) → k + left ≡ rounds → PendingBefore (suc k) → Polled (poll launch left k)
  unfolding poll
  poll-Polled zero k total earlier = record {
    some_sleep = omega arith;
    few_sleeps = omega arith;
    earlier = λ j low high. earlier j low (omega arith);
    told = (earlier k (omega arith) (omega arith), omega arith);
  }
  poll-Polled (suc left) k total earlier =
      poll_once_cases (k + 1)
        (λ o. Polled (elim o [ some r ↦ (r, k + 1) | none ↦ poll launch left (k + 1) ]))
        (λ r told. record {
          some_sleep = omega arith;
          few_sleeps = omega arith;
          earlier = λ j low high. earlier j low (omega arith);
          told = told;
        })
        (λ here. poll-Polled left (k + 1) (omega arith) (Pending-snoc k earlier here))

  -- A child runs the server with the call's settings, since none answered.
  abbrev pub Spawned : List Text → Launched → Type 0
  Spawned args launched =
      (exe : Text) × (launch.current_exe ≡ some exe)
      × (launched.children ≡ (exe ∷ args) ∷ [])
      × (is_answering launch 0 ≡ false)

  abbrev pub NoChild : Launched → Type 0
  NoChild launched = (launched.children ≡ []) × (launched.sleeps ≡ 0)

  abbrev pub Explained : List Text → Launched → Result StartError Found → Type 0
  Explained args launched (ok already_running) = (is_answering launch 0 ≡ true) × NoChild launched
  Explained args launched (err no_executable) = (launch.current_exe ≡ none) × NoChild launched
  Explained args launched (err spawn_failed) = (launch.spawns ≡ false) × NoChild launched
  Explained args launched r = Spawned args launched × Polled (r, launched.sleeps)

  pub record Launches (args : List Text) (launched : Launched) : Type 0 where
    pub one_child : length launched.children ≤ 1
    pub soon : slept_ms launched ≤ 6000
    pub explained : Explained args launched launched.result

  Polled-Explained :
      (args : List Text) (exe : Text) (p : Result StartError Found × ℕ)
      → launch.current_exe ≡ some exe
      → is_answering launch 0 ≡ false
      → Polled p
      → let launched = launched_with launch (exe ∷ args) p in
        Explained args launched launched.result
  Polled-Explained args exe (ok already_running, n) found silent p = elim p.told [ ]
  Polled-Explained args exe (err no_executable, n) found silent p = elim p.told [ ]
  Polled-Explained args exe (err spawn_failed, n) found silent p = elim p.told [ ]
  Polled-Explained args exe (ok started, n) found silent p = ((exe, found, refl, silent), p)
  Polled-Explained args exe (err waiting_failed, n) found silent p = ((exe, found, refl, silent), p)
  Polled-Explained args exe (err (exited_while_starting status), n) found silent p =
      ((exe, found, refl, silent), p)
  Polled-Explained args exe (err timed_out, n) found silent p = ((exe, found, refl, silent), p)

  spawn_server-Launches :
      (args : List Text) (exe : Option Text)
      → launch.current_exe ≡ exe
      → is_answering launch 0 ≡ false
      → Launches args (spawn_server launch exe args)
  spawn_server-Launches args none found silent = record {
    one_child = omega arith;
    soon = omega arith;
    explained = (found, (refl, refl));
  }
  spawn_server-Launches args (some exe) found silent =
      if_cases (Launches args) launch.spawns
        (λ e. record {
          one_child = omega arith;
          soon = omega (arith, ends.few_sleeps);
          explained = Polled-Explained args exe (poll launch rounds 0) found silent ends;
        })
        (λ e. record { one_child = omega arith; soon = omega arith; explained = (e, (refl, refl)) })
    where
      ends : Polled (poll launch rounds 0)
      ends = poll-Polled rounds 0 refl (λ k low high. ground arith)

  -- A call answers at once if the server does; otherwise it spawns one server with the given settings
  -- and queries at most 30 times, for 6 seconds of sleeps. It succeeds at the first query that is
  -- answered; its error tells that the executable is unknown, that the child could not be spawned,
  -- that waiting for it failed or that it exited, the first such time with no answer before, or that
  -- there was no answer in all 30 queries while the child was running.
  pub ensure_server_running-Launches :
      (key_file : Option Text) (config_file : Text) (mdns_enabled : Bool)
      → Launches
          (server_args key_file config_file mdns_enabled)
          (ensure_server_running launch key_file config_file mdns_enabled)
  unfolding ensure_server_running
  ensure_server_running-Launches key_file config_file mdns_enabled =
      if_cases (Launches (server_args key_file config_file mdns_enabled)) (is_answering launch 0)
        (λ e. record { one_child = omega arith; soon = omega arith; explained = (e, (refl, refl)) })
        (λ e.
          spawn_server-Launches (server_args key_file config_file mdns_enabled) launch.current_exe
            refl e)

-- ===== src/Daemon/Listening.antt =====
-- src/daemon/forwards.rs and service.rs: no operation leaks a listener's task.
use iroh_proxy.Common.{
  ◌∙◌, ap, ℕ, ◌≡◌, ◌≢◌, refl, subst, Bool, false, Option, none, some, is_some, Result, arith, [],
  ℕ_Keyed, if_cases, Option-cases, inl, inr,
}
use iroh_proxy.Common.Dict.{
  lookup-insert_cases, lookup-insert_self, insert, Dict, lookup, remove, contains_key,
  HasDistinctKeys, lookup-remove,
}
use iroh_proxy.Common.Text.{Text, text_Keyed, text_eq_refl}
use iroh_proxy.Daemon.Connections.{ActiveConnection, ConnectionRegistry, register, drop_guard}
use iroh_proxy.Daemon.State.{
  Phase, accepting, cancelling, stopped, abort_phase, cancel_phase, change_task, cancelled,
  send_state, sync_endpoint_alpns, ForwardBinding, ForwardTask, ForwardRuntime, Daemon, DaemonError,
  add_forward_binding, abort, forward_connected, forward_disconnected, accept_failed,
}
use iroh_proxy.Daemon.Service.{add_serve, del_serve, del_forward}
use iroh_proxy.Daemon.Served.{add_serve_cases, del_serve_cases}
use iroh_proxy.Daemon.Loaded.{add_serve_route_cases}
use iroh_proxy.Daemon.Owned.{
  Reach, starts, loads, syncs, serves, unserves, adds, removes, cancels, connects, disconnects,
  fails, arrives, leaves, Owned, spawned, torn_down, changed,
}

absent_found : {A : Type 0} {o : Option A} {a : A} → o ≡ none → o ≡ some a → ⊥
absent_found e f = cc

abort_phase-ends : (p : Phase) → abort_phase p ≢ accepting
abort_phase-ends accepting = ground arith
abort_phase-ends cancelling = ground arith
abort_phase-ends stopped = ground arith

cancel_phase-accepting : (p : Phase) → cancel_phase p ≡ accepting → p ≡ accepting
cancel_phase-accepting accepting e = refl
cancel_phase-accepting cancelling e = ground arith
cancel_phase-accepting stopped e = ground arith

cancel_phase-stopped : (p : Phase) → p ≢ accepting → cancel_phase p ≡ stopped
cancel_phase-stopped accepting ends = absurd (ends refl)
cancel_phase-stopped cancelling ends = refl
cancel_phase-stopped stopped ends = refl

module _ {EndpointId : Type 0} where
  change_task-Owned :
      (task : ℕ) (f : ForwardTask EndpointId → ForwardTask EndpointId) (d : Daemon EndpointId)
      → ((t : ForwardTask EndpointId) → (f t).binding ≡ t.binding)
      → ((t : ForwardTask EndpointId) → (f t).phase ≡ accepting → t.phase ≡ accepting)
      → Owned d
      → Owned (change_task task f d)
  unfolding change_task
  change_task-Owned task f d same ran h = elim (Option-cases (lookup task d.tasks)) [
    | inl e ↦ rw (e, change_task) h
    | inr (t, e) ↦
        rw (e, change_task)
          (changed d.tasks d.next_task task d.forwards t (f t) e (ap (λ b. b.listen) (same t))
            (ran t) h)
  ]

  -- An aborted task does not go on accepting.
  abort-ends :
      (task : ℕ) (tasks : Dict ℕ (ForwardTask EndpointId)) (t u : ForwardTask EndpointId)
      → lookup task (insert task (record t { phase = abort_phase t.phase }) tasks) ≡ some u
      → u.phase ≢ accepting
  abort-ends task tasks t u found runs = elim (lookup-insert_cases task task _ u tasks found) [
    | inl (_, is) ↦ abort_phase-ends t.phase (ap (λ w. w.phase) is ∙ runs)
    | inr (other, _) ↦ other refl
  ]

  abort-Owned :
      (listen : Text) (r : ForwardRuntime EndpointId) (d : Daemon EndpointId)
      → lookup listen d.forwards ≡ some r
      → Owned d
      → Owned (abort r.task (record d { forwards = remove listen d.forwards }))
  unfolding abort change_task
  abort-Owned listen r d there h = elim (Option-cases (lookup r.task d.tasks)) [
    | inl e ↦
        rw (e, abort, change_task)
          (torn_down d.tasks d.next_task listen r d.forwards there
            (λ t found runs. absent_found e found) h)
    | inr (t, e) ↦
        rw (e, abort, change_task)
          (torn_down _ d.next_task listen r d.forwards there (abort-ends r.task d.tasks t) (
            changed d.tasks d.next_task r.task d.forwards t _ e refl
              (λ runs. absurd (abort_phase-ends t.phase runs)) h))
  ]

  forwards-abort : (task : ℕ) (d : Daemon EndpointId) → (abort task d).forwards ≡ d.forwards
  unfolding abort change_task
  forwards-abort task d = elim (Option-cases (lookup task d.tasks)) [
    | inl e ↦ rw (e, abort, change_task) refl
    | inr (t, e) ↦ rw (e, abort, change_task) refl
  ]

  add_forward_binding-Owned :
      (bind : Text → Bool) (binding : ForwardBinding EndpointId) (persisted : Bool)
      (d : Daemon EndpointId)
      → Owned d
      → Owned (add_forward_binding bind binding persisted d).1
  unfolding add_forward_binding contains_key
  add_forward_binding-Owned bind binding persisted d h =
      if_cases result (contains_key binding.listen d.forwards) (λ _. h)
        λ absent.
          if_cases result (bind binding.listen)
            (λ _.
              spawned d.tasks d.next_task d.forwards
                (record { binding = binding; phase = accepting; conns = [] })
                (record { remote = binding.remote; persisted = persisted; task = d.next_task })
                (is_some-false (lookup binding.listen d.forwards) absent) refl h)
            (λ _. h)
    where
      result : Result DaemonError (Unit {0}) × Daemon EndpointId → Type 0
      result r = Owned r.1

      is_some-false : (o : Option (ForwardRuntime EndpointId)) → is_some o ≡ false → o ≡ none
      is_some-false none e = refl
      is_some-false (some r) e = ground arith

  del_forward-Owned :
      (listen : Text) (d : Daemon EndpointId) → Owned d → Owned (del_forward listen d).1
  unfolding del_forward abort send_state
  del_forward-Owned listen d h = elim (Option-cases (lookup listen d.forwards)) [
    | inl e ↦ rw (e, del_forward) h
    | inr (r, e) ↦ rw (e, del_forward) (abort-Owned listen r d e h)
  ]

  forward_connected-Owned :
      (task : ℕ) (info : ActiveConnection) (d : Daemon EndpointId)
      → Owned d
      → Owned (forward_connected task info d)
  unfolding forward_connected
  forward_connected-Owned task info d h = elim (Option-cases (lookup task d.tasks)) [
    | inl e ↦ rw (e, forward_connected) h
    | inr (t, e) ↦
        rw (e, forward_connected)
          (changed d.tasks d.next_task task d.forwards t _ e refl (λ e. e) h)
  ]

  forward_disconnected-Owned :
      (task id : ℕ) (d : Daemon EndpointId) → Owned d → Owned (forward_disconnected task id d)
  unfolding forward_disconnected
  forward_disconnected-Owned task id d h = elim (Option-cases (lookup task d.tasks)) [
    | inl e ↦ rw (e, forward_disconnected) h
    | inr (t, e) ↦
        rw (e, forward_disconnected)
          (changed d.tasks d.next_task task d.forwards t _ e refl (λ e. e) h)
  ]

  nothing_runs :
      (n : ℕ) (t : ForwardTask EndpointId) → lookup {V = ForwardTask EndpointId} n [] ≡ some t → ⊥
  unfolding lookup
  nothing_runs n t found = cc

  registers-Owned :
      (registry : ConnectionRegistry) (d : Daemon EndpointId)
      → Owned d
      → Owned (record d { connections = registry })
  registers-Owned registry d h = h

  sync-Owned : (d : Daemon EndpointId) → Owned d → Owned (sync_endpoint_alpns d)
  unfolding sync_endpoint_alpns
  sync-Owned d h = h

  add_serve-Owned :
      (name target : Text) (d : Daemon EndpointId) → Owned d → Owned (add_serve name target d).1
  unfolding sync_endpoint_alpns send_state
  add_serve-Owned name target d h =
      add_serve_cases (λ r. Owned r.1) name target d (λ e bad. h) λ v f n. h

  del_serve-Owned : (name : Text) (d : Daemon EndpointId) → Owned d → Owned (del_serve name d).1
  unfolding sync_endpoint_alpns send_state
  del_serve-Owned name d h = del_serve_cases (λ r. Owned r.1) name d (λ missing. h) λ route found. h

  -- No listener's task is leaked: in every state that the server reaches, however the steps of its
  -- start, of the control interface, of listeners and of incoming connections interleave, a task that
  -- accepts connections, and whose cancellation is not scheduled, is the one of the entry under the
  -- address at which it listens.
  pub Reach-Owned : {d : Daemon EndpointId} → Reach d → Owned d
  unfolding lookup accept_failed abort cancelled
  Reach-Owned (starts id) = record {
    distinct_tasks = tt;
    distinct_forwards = tt;
    below = λ n t found. ground arith;
    owned = λ n t found. absurd (nothing_runs n t found);
  }
  Reach-Owned (loads {d} name target h) =
      add_serve_route_cases (λ r. Owned r.1) name target d (λ e. Reach-Owned h) λ new. Reach-Owned h
  Reach-Owned (syncs h) = sync-Owned _ (Reach-Owned h)
  Reach-Owned (serves name target h) = add_serve-Owned name target _ (Reach-Owned h)
  Reach-Owned (unserves name h) = del_serve-Owned name _ (Reach-Owned h)
  Reach-Owned (adds bind binding persisted h) =
      add_forward_binding-Owned bind binding persisted _ (Reach-Owned h)
  Reach-Owned (removes listen h) = del_forward-Owned listen _ (Reach-Owned h)
  Reach-Owned (cancels task h) =
      change_task-Owned task _ _ (λ t. refl) (λ t. cancel_phase-accepting t.phase) (Reach-Owned h)
  Reach-Owned (connects task info h) = forward_connected-Owned task info _ (Reach-Owned h)
  Reach-Owned (disconnects task id h) = forward_disconnected-Owned task id _ (Reach-Owned h)
  Reach-Owned (fails task h) =
      change_task-Owned task _ _ (λ t. refl) (λ t e. ground arith) (Reach-Owned h)
  Reach-Owned (arrives {d} info h) =
      registers-Owned (register info d.connections).1 d (Reach-Owned h)
  Reach-Owned (leaves {d} id h) = registers-Owned (drop_guard id d.connections) d (Reach-Owned h)

  pub lookup-del_forward :
      (listen : Text) (d : Daemon EndpointId)
      → HasDistinctKeys d.forwards
      → lookup listen (del_forward listen d).1.forwards ≡ none
  unfolding del_forward
  lookup-del_forward listen d h = elim (Option-cases (lookup listen d.forwards)) [
    | inl e ↦ rw (e, del_forward) e
    | inr (r, e) ↦
        rw (e, del_forward) ground
          (
            arith,
            forwards-abort r.task (record d { forwards = remove listen d.forwards }),
            lookup-remove listen listen d.forwards h,
            text_eq_refl listen,
          )
  ]

  -- After DelForward, in any state that the server reaches, whether an entry was there or not, every
  -- task that listens at the address is scheduled for cancellation or over; and once the runtime has
  -- cancelled it, it is over.
  pub del_forward-stops :
      {d : Daemon EndpointId}
      → Reach d
      → (listen : Text) (n : ℕ) (t : ForwardTask EndpointId)
      → lookup n (del_forward listen d).1.tasks ≡ some t
      → t.binding.listen ≡ listen
      → (t.phase ≢ accepting)
        × (lookup n (cancelled n (del_forward listen d).1).tasks
            ≡ some (record t { phase = stopped }))
  unfolding cancelled change_task
  del_forward-stops {d = d} h listen n t there same =
      let after = Reach-Owned (removes listen h) in
      let ends : t.phase ≢ accepting = λ runs.
        let (r, entry, is) = after.owned n t there runs in
        absent_found (lookup-del_forward listen d (Reach-Owned h).distinct_forwards)
          (subst (λ l. lookup l (del_forward listen d).1.forwards ≡ some r) same entry) in
      (
        ends,
        rw (there, cancelled, change_task)
            (lookup-insert_self n _ (del_forward listen d).1.tasks
              ∙ ap (λ p. some (record t { phase = p })) (cancel_phase-stopped t.phase ends)),
      )

-- ===== src/Daemon/Owned.antt =====
-- src/daemon/: the states that a server reaches, and that no listener's task outlives its entry.
use iroh_proxy.Common.{
  ℕ, ◌+◌, ◌<◌, ◌≡◌, ◌≢◌, sym, ap, ◌∙◌, subst, Bool, none, some, arith, ℕ_Keyed, inl, inr,
}
use iroh_proxy.Common.Dict.{
  Dict, lookup, insert, remove, HasDistinctKeys, lookup-insert_cases, lookup-insert_other,
  lookup-insert_self, lookup-remove, insert-HasDistinctKeys, remove-HasDistinctKeys,
}
use iroh_proxy.Common.Text.{Text, text_Keyed, text_eq_iff}
use iroh_proxy.Daemon.Connections.{ActiveConnection, register, drop_guard}
use iroh_proxy.Daemon.State.{
  ForwardBinding, ForwardTask, ForwardRuntime, Daemon, accepting, add_serve_route,
  sync_endpoint_alpns, add_forward_binding, forward_connected, forward_disconnected, accept_failed,
  cancelled,
}
use iroh_proxy.Daemon.Start.{fresh}
use iroh_proxy.Daemon.Service.{add_serve, del_serve, del_forward}

module _ {EndpointId : Type 0} where
  -- The states of a server, after any interleaving of its steps: those of its start, of the control
  -- interface, of listeners and their tasks, and of incoming connections.
  pub data Reach : Daemon EndpointId → Type 0 where
    starts : (id : EndpointId) → Reach (fresh id)
    loads :
        {d : Daemon EndpointId} (name target : Text)
        → Reach d
        → Reach (add_serve_route name target d).1
    syncs : {d : Daemon EndpointId} → Reach d → Reach (sync_endpoint_alpns d)
    serves :
        {d : Daemon EndpointId} (name target : Text) → Reach d → Reach (add_serve name target d).1
    unserves : {d : Daemon EndpointId} (name : Text) → Reach d → Reach (del_serve name d).1
    adds :
        {d : Daemon EndpointId} (bind : Text → Bool) (binding : ForwardBinding EndpointId)
        (persisted : Bool)
        → Reach d
        → Reach (add_forward_binding bind binding persisted d).1
    removes : {d : Daemon EndpointId} (listen : Text) → Reach d → Reach (del_forward listen d).1
    cancels : {d : Daemon EndpointId} (task : ℕ) → Reach d → Reach (cancelled task d)
    connects :
        {d : Daemon EndpointId} (task : ℕ) (info : ActiveConnection)
        → Reach d
        → Reach (forward_connected task info d)
    disconnects :
        {d : Daemon EndpointId} (task id : ℕ) → Reach d → Reach (forward_disconnected task id d)
    fails : {d : Daemon EndpointId} (task : ℕ) → Reach d → Reach (accept_failed task d)
    -- `handle_incoming` registers a connection, and drops its guard at its end.
    arrives :
        {d : Daemon EndpointId} (info : ActiveConnection)
        → Reach d
        → Reach (record d { connections = (register info d.connections).1 })
    leaves :
        {d : Daemon EndpointId} (id : ℕ)
        → Reach d
        → Reach (record d { connections = drop_guard id d.connections })

  -- The entry of a task is the one of the address at which it listens.
  abbrev pub HasEntry : Dict Text (ForwardRuntime EndpointId) → ℕ → Text → Type 0
  HasEntry forwards n listen =
      (r : ForwardRuntime EndpointId) × (lookup listen forwards ≡ some r) × (r.task ≡ n)

  pub record Owns (tasks : Dict ℕ (ForwardTask EndpointId)) (next_task : ℕ)
      (forwards : Dict Text (ForwardRuntime EndpointId)) : Type 0 where
    pub distinct_tasks : HasDistinctKeys tasks
    pub distinct_forwards : HasDistinctKeys forwards
    pub below : (n : ℕ) (t : ForwardTask EndpointId) → lookup n tasks ≡ some t → n < next_task
    pub owned :
        (n : ℕ) (t : ForwardTask EndpointId)
        → lookup n tasks ≡ some t
        → t.phase ≡ accepting
        → HasEntry forwards n t.binding.listen

  abbrev pub Owned : Daemon EndpointId → Type 0
  Owned d = Owns d.tasks d.next_task d.forwards

  pub spawned :
      (tasks : Dict ℕ (ForwardTask EndpointId)) (next : ℕ)
      (forwards : Dict Text (ForwardRuntime EndpointId)) (t : ForwardTask EndpointId)
      (r : ForwardRuntime EndpointId)
      → lookup t.binding.listen forwards ≡ none
      → r.task ≡ next
      → Owns tasks next forwards
      → Owns (insert next t tasks) (next + 1) (insert t.binding.listen r forwards)
  spawned tasks next forwards t r absent at h = record {
    distinct_tasks = insert-HasDistinctKeys next t tasks h.distinct_tasks;
    distinct_forwards = insert-HasDistinctKeys t.binding.listen r forwards h.distinct_forwards;
    below = λ n u found. elim (lookup-insert_cases next n t u tasks found) [
      | inl (same, _) ↦ omega (arith, same)
      | inr (_, old) ↦ omega (arith, h.below n u old)
    ];
    owned = λ n u found runs. elim (lookup-insert_cases next n t u tasks found) [
      | inl (same, new) ↦
          subst (λ v. HasEntry (insert t.binding.listen r forwards) n v.binding.listen) new
            (r, lookup-insert_self t.binding.listen r forwards, at ∙ same)
      | inr (_, old) ↦
          let (s, there, is) = h.owned n u old runs in
          (s, lookup-insert_other t.binding.listen u.binding.listen r s forwards absent there, is)
    ];
  }

  -- An entry may go if its task does not go on accepting.
  pub torn_down :
      (tasks : Dict ℕ (ForwardTask EndpointId)) (next : ℕ) (listen : Text)
      (r : ForwardRuntime EndpointId) (forwards : Dict Text (ForwardRuntime EndpointId))
      → lookup listen forwards ≡ some r
      → ((t : ForwardTask EndpointId) → lookup r.task tasks ≡ some t → t.phase ≢ accepting)
      → Owns tasks next forwards
      → Owns tasks next (remove listen forwards)
  torn_down tasks next listen r forwards there ends h = record {
    distinct_tasks = h.distinct_tasks;
    distinct_forwards = remove-HasDistinctKeys listen forwards h.distinct_forwards;
    below = h.below;
    owned = λ n t found runs.
        let (s, entry, is) = h.owned n t found runs in
        let other : r.task ≢ n =
          λ same. ends t (subst (λ m. lookup m tasks ≡ some t) (sym same) found) runs in
        (
          s,
          ground (
            arith,
            lookup-remove listen t.binding.listen forwards h.distinct_forwards,
            text_eq_iff listen t.binding.listen,
            other,
            entry,
            is,
            there,
          ),
          is,
        );
  }

  -- A task that is changed keeps its address, and does not accept again.
  pub changed :
      (tasks : Dict ℕ (ForwardTask EndpointId)) (next task : ℕ)
      (forwards : Dict Text (ForwardRuntime EndpointId)) (t u : ForwardTask EndpointId)
      → lookup task tasks ≡ some t
      → u.binding.listen ≡ t.binding.listen
      → (u.phase ≡ accepting → t.phase ≡ accepting)
      → Owns tasks next forwards
      → Owns (insert task u tasks) next forwards
  changed tasks next task forwards t u there same ran h = record {
    distinct_tasks = insert-HasDistinctKeys task u tasks h.distinct_tasks;
    distinct_forwards = h.distinct_forwards;
    below = λ n v found. elim (lookup-insert_cases task n u v tasks found) [
      | inl (at, _) ↦ omega (arith, at, h.below task t there)
      | inr (_, old) ↦ h.below n v old
    ];
    owned = λ n v found runs. elim (lookup-insert_cases task n u v tasks found) [
      | inl (at, is) ↦
          subst (λ listen. HasEntry forwards n listen) (sym same ∙ ap (λ w. w.binding.listen) is)
            (subst (λ m. HasEntry forwards m t.binding.listen) at
              (h.owned task t there (ran (ap (λ w. w.phase) is ∙ runs))))
      | inr (_, old) ↦ h.owned n v old runs
    ];
  }

-- ===== src/Daemon/Forwarded.antt =====
-- src/daemon/service.rs and forwards.rs: what AddForward does, and how DelForward undoes it.
use iroh_proxy.Common.{
  ◌≡◌, refl, ap, ◌∙◌, Bool, none, some, [], Result, ok, err, arith, ℕ_Keyed, inl, inr, Option-cases,
  if_cases,
}
use iroh_proxy.Common.Dict.{
  lookup, contains_key, insert, remove, lookup-insert_self, remove-insert_new, insert-insert,
}
use iroh_proxy.Common.Text.{Text, text_Keyed}
use iroh_proxy.Daemon.State.{
  ForwardBinding, ForwardRuntime, ForwardTask, Daemon, DaemonError, add_forward_binding, spawn,
  send_state, abort, change_task, accepting, cancelling,
}
use iroh_proxy.Daemon.Owned.{Reach}
use iroh_proxy.Daemon.Listening.{Reach-Owned}
use iroh_proxy.Daemon.Service.{del_forward}

module _ {EndpointId : Type 0} where
  abbrev pub entry_of :
      ForwardBinding EndpointId → Bool → Daemon EndpointId → ForwardRuntime EndpointId
  entry_of binding persisted d = record {
    remote = binding.remote;
    persisted = persisted;
    task = d.next_task;
  }

  abbrev pub task_of : ForwardBinding EndpointId → ForwardTask EndpointId
  task_of binding = record { binding = binding; phase = accepting; conns = [] }

  abbrev pub aborted_task_of : ForwardBinding EndpointId → ForwardTask EndpointId
  aborted_task_of binding = record { binding = binding; phase = cancelling; conns = [] }

  -- What an addition did: the listener runs with a new entry at its address, or nothing changed.
  pub record Listens (binding : ForwardBinding EndpointId) (persisted : Bool)
      (d : Daemon EndpointId) (after : Daemon EndpointId) : Type 0 where
    pub free : lookup binding.listen d.forwards ≡ none
    pub forwards : after.forwards ≡ insert binding.listen (entry_of binding persisted d) d.forwards
    pub tasks : after.tasks ≡ insert d.next_task (task_of binding) d.tasks

  pub add_forward_binding_cases :
      (P : Result DaemonError (Unit {0}) × Daemon EndpointId → Type 0) (bind : Text → Bool)
      (binding : ForwardBinding EndpointId) (persisted : Bool) (d : Daemon EndpointId)
      → ((e : DaemonError) → P (err e, d))
      → ((after : Daemon EndpointId) → Listens binding persisted d after → P (ok tt, after))
      → P (add_forward_binding bind binding persisted d)
  unfolding add_forward_binding contains_key spawn send_state
  add_forward_binding_cases P bind binding persisted d refused listens =
      elim (Option-cases (lookup binding.listen d.forwards)) [
        | inl e ↦ rw e (
            if_cases P (bind binding.listen)
              (λ _. listens _ (record { free = e; forwards = refl; tasks = refl }))
              (λ _. refused _))
        | inr (r, e) ↦ rw e (refused _)
      ]

  pub unused_task : {d : Daemon EndpointId} → Reach d → lookup d.next_task d.tasks ≡ none
  unused_task {d} reach = elim (Option-cases (lookup d.next_task d.tasks)) [
    | inl e ↦ e
    | inr (t, e) ↦ absurd (ground (arith, (Reach-Owned reach).below d.next_task t e))
  ]

  -- Removing an entry that was just added leaves the entries as they were, and the tasks but for
  -- the new one, which is scheduled for cancellation.
  pub del_forward-Listens :
      {d : Daemon EndpointId} (binding : ForwardBinding EndpointId) (persisted : Bool)
      (after : Daemon EndpointId)
      → Listens binding persisted d after
      → let r = del_forward binding.listen after in
        (r.0 ≡ ok tt)
        × (r.1.forwards ≡ d.forwards)
        × (r.1.tasks ≡ insert d.next_task (aborted_task_of binding) d.tasks)
  unfolding del_forward send_state abort change_task
  del_forward-Listens {d} binding persisted after h =
      let found : lookup binding.listen after.forwards ≡ some (entry_of binding persisted d) =
        ap (lookup binding.listen) h.forwards
        ∙ lookup-insert_self binding.listen (entry_of binding persisted d) d.forwards in
      let running : lookup d.next_task after.tasks ≡ some (task_of binding) =
        ap (lookup d.next_task) h.tasks
        ∙ lookup-insert_self d.next_task (task_of binding) d.tasks in
      rw (found, del_forward, abort, change_task, running)
        (
          refl,
          ap (remove binding.listen) h.forwards
              ∙ remove-insert_new binding.listen (entry_of binding persisted d) d.forwards h.free,
          ap (insert d.next_task (aborted_task_of binding)) h.tasks
              ∙ insert-insert d.next_task (aborted_task_of binding) (task_of binding) d.tasks,
        )

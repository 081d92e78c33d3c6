-- ===== src/Proxy/Pumping.antt =====
-- src/proxy.rs: how `pump_streams` and `forward_tcp_conn` end.
use iroh_proxy.Common.{
  ℕ, ◌+◌, ◌≤◌, ◌≡◌, refl, ap, ◌≢◌, ◌⊎◌, inl, inr, max, Bool, true, false, Option, none, some,
  Result, ok, err, arith, Bool-cases, leb, leb→le, nat_eq_iff, ◌∙◌, ℕ_Keyed,
}
use iroh_proxy.Common.Dict.{lookup, HasDistinctKeys, lookup-remove, same_refl}
use iroh_proxy.Daemon.Connections.{ActiveConnection, ConnectionRegistry, register, drop_guard}
use iroh_proxy.Proxy.Pump.{
  Copied, bytes, copy_failed, panicked, Streams, PumpStats, PumpError, running, Pumped,
  pump_streams, await_within, after_up, joined, joined_at, timed_out_at, abort_at, ForwardError,
  opened, closed, Forwarded, forward_tcp_conn, finish_forward, pump_result, after_pump,
}

-- The down direction is over by a time.
abbrev pub OverBy : Streams → ℕ → Type 0
OverBy streams at = (ended : ℕ) × (streams.down_end ≡ some ended) × (ended ≤ at)

-- What a result says, `fires` being when the wait for the response ends at the latest.
abbrev pub Reports : Streams → ℕ → Result PumpError PumpStats → Type 0
Reports streams fires (ok stats) =
    (streams.up ≡ ok stats.up_bytes)
    × (((stats.timed_out ≡ false) × (streams.down ≡ bytes stats.down_bytes) × OverBy streams fires)
        ⊎ ((stats.timed_out ≡ true) × (stats.down_bytes ≡ 0) × (OverBy streams fires → ⊥)))
Reports streams fires (err PumpError.local_to_iroh_failed) = streams.up ≡ err tt
Reports streams fires (err PumpError.iroh_to_local_failed) =
    (streams.down ≡ copy_failed) × OverBy streams fires
Reports streams fires (err PumpError.task_panicked) =
    (streams.down ≡ panicked) × OverBy streams fires

pub record Pumps (streams : Streams) (fires : ℕ) (p : Pumped) : Type 0 where
  pub stopped : p.down_task ≢ running
  pub in_time : p.at ≤ fires
  pub reported : Reports streams fires p.result

abort_at_lem : (now : ℕ) (d : Option ℕ) → abort_at now d ≢ running
abort_at_lem now none = ground arith
abort_at_lem now (some ended) = ground arith

joined-Reports :
    (streams : Streams) (fires up_bytes : ℕ) (c : Copied)
    → streams.up ≡ ok up_bytes
    → OverBy streams fires
    → streams.down ≡ c
    → Reports streams fires (joined up_bytes c)
joined-Reports streams fires up_bytes (bytes n) up over down = (up, inl (refl, down, over))
joined-Reports streams fires up_bytes copy_failed up over down = (down, over)
joined-Reports streams fires up_bytes panicked up over down = (down, over)

module _ (streams : Streams) (now fires up_bytes : ℕ) (later : now ≤ fires)
    (up : streams.up ≡ ok up_bytes) where
  timed_out_at-Pumps :
      (OverBy streams fires → ⊥) → Pumps streams fires (timed_out_at streams fires up_bytes)
  timed_out_at-Pumps late = record {
    stopped = abort_at_lem fires streams.down_end;
    in_time = omega arith;
    reported = (up, inr (refl, refl, late));
  }

  joined_at-Pumps :
      (ended : ℕ)
      → streams.down_end ≡ some ended
      → ended ≤ fires
      → Pumps streams fires (joined_at streams (max now ended) up_bytes)
  joined_at-Pumps ended d over = record {
    stopped = ground arith;
    in_time = omega arith;
    reported = joined-Reports streams fires up_bytes streams.down up (ended, d, over) refl;
  }

  await_within-Pumps :
      (d : Option ℕ)
      → streams.down_end ≡ d
      → Pumps streams fires (await_within streams now fires up_bytes d)
  unfolding await_within
  await_within-Pumps none d = timed_out_at-Pumps λ (ended, e, over). ground arith
  await_within-Pumps (some ended) d = elim (Bool-cases (leb ended fires)) [
    | inl over ↦ rw over (joined_at-Pumps ended d (leb→le _ _ over))
    | inr late ↦ rw late (timed_out_at-Pumps λ (other, e, over). ground arith)
  ]

after_up-Pumps :
    (streams : Streams) (now timeout : ℕ) (u : Result (Unit {0}) ℕ)
    → streams.up ≡ u
    → (p : Pumped) × (after_up streams (some timeout) now u ≡ some p)
      × Pumps streams (now + timeout + streams.timer_late) p
unfolding after_up
after_up-Pumps streams now timeout (ok up_bytes) up = (
  _,
  refl,
  await_within-Pumps streams now (now + timeout + streams.timer_late) up_bytes (omega arith) up
      streams.down_end refl,
)
after_up-Pumps streams now timeout (err e) up = (
  _,
  refl,
  record { stopped = abort_at_lem now streams.down_end; in_time = omega arith; reported = up },
)

-- If the request ends, then with a timeout the call returns at most the timeout and its timer's
-- lateness after that, and the response's task is over or aborted. The statistics tell the bytes of
-- the request, and those of the response if it was over in time; else that the timeout fired. An
-- error is that of the request, or of a response that was over in time.
pub pump_streams-Pumps :
    (streams : Streams) (now timeout : ℕ)
    → streams.up_end ≡ some now
    → (p : Pumped) × (pump_streams streams (some timeout) ≡ some p)
      × Pumps streams (now + timeout + streams.timer_late) p
unfolding pump_streams
pump_streams-Pumps streams now timeout h =
    let (p, eq, pumps) = after_up-Pumps streams now timeout streams.up refl in
    (p, cc (h, eq), pumps)

-- What is left when the forwarding of a connection ends: `guard` is its id in the registry, `held`
-- the registry as the other connections leave it.
pub record Released {E : Type 0} (guard : ℕ) (held : ConnectionRegistry) (f : Forwarded E)
    : Type 0 where
  pub unlinked : f.link ≢ opened
  pub dropped : lookup guard f.registry.active ≡ none
  pub others_stay : (id : ℕ) → id ≢ guard → lookup id f.registry.active ≡ lookup id held.active

finish_forward-Released :
    {E : Type 0} (guard : ℕ) (held : ConnectionRegistry) (result : Result (ForwardError E) Bool)
    → HasDistinctKeys held.active
    → Released guard held (finish_forward guard held closed result)
unfolding drop_guard
finish_forward-Released guard held result known = record {
  unlinked = ground arith;
  dropped = lookup-remove guard guard held.active known ∙ rw (same_refl guard);
  others_stay =
      λ id other. lookup-remove guard id held.active known ∙ ground (arith, nat_eq_iff guard id);
}

-- If the remote is connected and the request of the opened stream ends, the forwarding returns, with
-- the connection closed, its entry dropped from the registry and the entries of the other connections
-- as those leave them, whether the stream opens, the copying fails or the timeout fires; if no two
-- entries of the registry have the same id.
pub forward_tcp_conn-Released :
    {E : Type 0} (open_bi : Option Streams) (info : ActiveConnection) (timeout : ℕ)
    (others : ConnectionRegistry → ConnectionRegistry) (registry : ConnectionRegistry)
    → HasDistinctKeys (others (register info registry).1).active
    → ((streams : Streams) → open_bi ≡ some streams → (now : ℕ) × (streams.up_end ≡ some now))
    → (f : Forwarded E) × (forward_tcp_conn {E = E} (ok tt) open_bi info timeout others registry
        ≡ some f)
      × Released (register info registry).0 (others (register info registry).1) f
unfolding forward_tcp_conn
forward_tcp_conn-Released none info timeout others registry known ends =
    (_, refl, finish_forward-Released (register info registry).0 _ _ known)
forward_tcp_conn-Released (some streams) info timeout others registry known ends =
    let (now, h) = ends streams refl in
    let (p, eq, pumps) = pump_streams-Pumps streams now timeout h in
    let guard = (register info registry).0 in
    let held = others (register info registry).1 in
    (
      finish_forward guard held closed (pump_result p.result),
      ap (after_pump guard held) eq,
      finish_forward-Released guard held (pump_result p.result) known,
    )

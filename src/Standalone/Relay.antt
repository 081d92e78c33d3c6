-- ===== src/Standalone/Relay.antt =====
-- src/forward.rs and src/fdpass.rs: how a relayed stream ends.
use iroh_proxy.Common.{
  ℕ, ◌≡◌, ◌≢◌, ◌⊎◌, refl, inl, inr, Bool, true, false, Option, none, some, Result, ok, err,
}
use iroh_proxy.Common.Text.{Text}
use iroh_proxy.RemotePath.{Iroh, RemotePath, PathError, parse}
use iroh_proxy.Proxy.Pump.{
  Copied, bytes, copy_failed, panicked, Streams, PumpStats, PumpError, pump_streams, after_up,
  await_end, joined, opened,
}
use iroh_proxy.Standalone.{
  StandaloneError, endpoint_failed, open_bi_failed, connect_failed, pump_failed, Relayed, relayed,
  after_relay, forward_stdio, ForwardMode, relay_child, pass_fd, forward_command, with_remote,
}

-- Both directions are over.
abbrev pub BothEnd : Streams → Type 0
BothEnd streams =
    (now : ℕ) × (ended : ℕ) × (streams.up_end ≡ some now) × (streams.down_end ≡ some ended)

abbrev pub Waits : Streams → Type 0
Waits streams =
    (streams.up_end ≡ none) ⊎ ((n : ℕ) × (streams.up ≡ ok n) × (streams.down_end ≡ none))

-- What the result of copying says.
abbrev pub Copies : Streams → Result PumpError PumpStats → Type 0
Copies streams (ok stats) =
    (streams.up ≡ ok stats.up_bytes)
    × (streams.down ≡ bytes stats.down_bytes)
    × (stats.timed_out ≡ false)
    × BothEnd streams
Copies streams (err PumpError.local_to_iroh_failed) = streams.up ≡ err tt
Copies streams (err PumpError.iroh_to_local_failed) = (streams.down ≡ copy_failed) × BothEnd streams
Copies streams (err PumpError.task_panicked) = (streams.down ≡ panicked) × BothEnd streams

module _ {E : Type 0} (builds : Bool) (connected : Result E (Unit {0}))
    (open_bi : Option Streams) where
  abbrev pub Tells : Result (StandaloneError E) PumpStats → Type 0
  Tells (ok stats) = (streams : Streams) × (open_bi ≡ some streams) × Copies streams (ok stats)
  Tells (err (pump_failed e)) =
      (streams : Streams) × (open_bi ≡ some streams) × Copies streams (err e)
  Tells (err endpoint_failed) = builds ≡ false
  Tells (err (connect_failed e)) = connected ≡ err e
  Tells (err open_bi_failed) = open_bi ≡ none
  Tells (err e) = ⊥

  -- The call waits for ever, for a direction that does not end, or it returns.
  pub data Relays : Option (Relayed E) → Type 0 where
    waits : (streams : Streams) → open_bi ≡ some streams → Waits streams → Relays none
    ends : (r : Relayed E) → r.link ≢ opened → Tells r.result → Relays (some r)

joined-Copies :
    (streams : Streams) (up_bytes : ℕ) (c : Copied)
    → streams.up ≡ ok up_bytes
    → BothEnd streams
    → streams.down ≡ c
    → Copies streams (joined up_bytes c)
joined-Copies streams up_bytes (bytes n) up both down = (up, down, refl, both)
joined-Copies streams up_bytes copy_failed up both down = (down, both)
joined-Copies streams up_bytes panicked up both down = (down, both)

module _ {E : Type 0} (builds : Bool) (connected : Result E (Unit {0})) (streams : Streams) where
  relayed-Relays :
      (r : Result PumpError PumpStats)
      → Copies streams r
      → Relays builds connected (some streams) (some (relayed r))
  relayed-Relays (ok stats) copies = ends (relayed (ok stats)) (λ h. cc h) (streams, refl, copies)
  relayed-Relays (err e) copies = ends (relayed (err e)) (λ h. cc h) (streams, refl, copies)

  pump-Relays : Relays builds connected (some streams) (after_relay (pump_streams streams none))
  unfolding pump_streams after_up await_end
  pump-Relays = from_up streams.up_end refl
    where
      from_down :
          (now n : ℕ) (d : Option ℕ)
          → streams.up_end ≡ some now
          → streams.up ≡ ok n
          → streams.down_end ≡ d
          → Relays builds connected (some streams) (after_relay (await_end streams now n d))
      from_down now n none e u d = waits streams refl (inr (n, u, d))
      from_down now n (some ended) e u d =
          relayed-Relays (joined n streams.down)
            (joined-Copies streams n streams.down u (now, ended, e, d) refl)

      from_request :
          (now : ℕ) (u : Result (Unit {0}) ℕ)
          → streams.up_end ≡ some now
          → streams.up ≡ u
          → Relays builds connected (some streams) (after_relay (after_up streams none now u))
      from_request now (err x) e u = relayed-Relays (err PumpError.local_to_iroh_failed) u
      from_request now (ok n) e u = from_down now n streams.down_end e u refl

      from_up :
          (o : Option ℕ)
          → streams.up_end ≡ o
          → Relays builds connected (some streams) (
              after_relay
                (elim o [ none ↦ none | some now ↦ after_up streams none now streams.up ]))
      from_up none e = waits streams refl (inl e)
      from_up (some now) e = from_request now streams.up e refl

-- The call returns unless the request does not end, or it ends well and the response does not: there
-- is no timeout. When it returns, no connection is left open. Its statistics tell the bytes of both
-- directions, which are over then; its error tells that the endpoint was not built, that the
-- connection failed, that no stream opened, or that a direction failed.
pub forward_stdio-Relays :
    {E : Type 0} (builds : Bool) (connected : Result E (Unit {0})) (open_bi : Option Streams)
    → Relays builds connected open_bi (forward_stdio builds connected open_bi)
unfolding forward_stdio
forward_stdio-Relays false connected open_bi = ends _ (λ h. cc h) refl
forward_stdio-Relays true (err e) open_bi = ends _ (λ h. cc h) refl
forward_stdio-Relays true (ok connected) none = ends _ (λ h. cc h) refl
forward_stdio-Relays true (ok connected) (some streams) = pump-Relays true (ok connected) streams

-- The relay that is spawned for a checked path, with the same path, relays to it.
pub forward_command-relays :
    {EndpointId E : Type 0} ⦃iroh : Iroh EndpointId⦄ (timeout_secs fd : ℕ) (first : Text)
    → forward_command {EndpointId = EndpointId} {E = E} false timeout_secs true none first none
      ≡ ok (pass_fd first)
    → (remote : RemotePath EndpointId) × (parse first ≡ ok remote)
      × (forward_command {E = E} true timeout_secs false (some fd) first none
          ≡ ok (relay_child fd remote))
unfolding forward_command
forward_command-relays {EndpointId} {E} timeout_secs fd first h = checked (parse first) refl h
  where
    checked :
        (p : Result PathError (RemotePath EndpointId))
        → parse first ≡ p
        → with_remote {E = E} {A = ForwardMode EndpointId} p (λ parsed. ok (pass_fd first))
          ≡ ok (pass_fd first)
        → (remote : RemotePath EndpointId) × (parse first ≡ ok remote)
          × (with_remote {E = E} (parse first) (λ parsed. ok (relay_child fd parsed))
              ≡ ok (relay_child fd remote))
    checked (ok remote) e h = (remote, e, rw e refl)
    checked (err x) e h = absurd (cc h)

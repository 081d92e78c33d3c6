-- ===== src/FdPass/Relay.antt =====
-- src/fdpass.rs: the relay of a parent that ends.
use iroh_proxy.Common.{
  ℕ, zero, suc, ◌+◌, ◌<◌, ◌≡◌, ◌≢◌, refl, Bool, true, false, Option, none, some, Result, ok, err,
  arith, subst, ℕ_Keyed, bail_if, is_some, sym, ◌>>=◌, ◌>>◌,
}
use iroh_proxy.FdPass.{
  Table, FdOs, FdError, Sendmsg, sent, interrupted, failed, send_failed, spawn_failed,
  socketpair_failed, run_fdpass_parent, unix_socketpair, pre_exec, exec, spawn_relay_child, send_fd,
}
use iroh_proxy.FdPass.Inherited.{
  Inherits, IsPair, forked, pre_exec_ok, lookup-forked_child, relay_table-Inherits,
}

abbrev pub Relays : Result FdError Table → Type 0
Relays (ok table) = Inherits table
Relays (err e) = Unit

exec-Relays :
    (spawn_fails : Bool) (r : Result FdError Table)
    → ((prepared : Table) → r ≡ ok prepared → Inherits (exec prepared))
    → Relays (r >>= λ prepared. bail_if spawn_fails spawn_failed >> ok (exec prepared))
exec-Relays spawn_fails (err e) h = tt
exec-Relays true (ok prepared) h = tt
exec-Relays false (ok prepared) h = h prepared refl

spawn_relay_child-Relays :
    (os : FdOs) (ssh_raw child_raw : ℕ) (table : Table)
    → IsPair ssh_raw child_raw table
    → Relays (spawn_relay_child os child_raw (unix_socketpair ssh_raw child_raw table))
unfolding spawn_relay_child
spawn_relay_child-Relays os ssh_raw child_raw table pair =
    exec-Relays os.spawn_fails (pre_exec os child_raw (forked ssh_raw child_raw table))
      λ prepared done.
        subst (λ t. Inherits (exec t))
          (sym (
            pre_exec_ok os child_raw (forked ssh_raw child_raw table) prepared
              (lookup-forked_child ssh_raw child_raw table pair.high) done))
          (relay_table-Inherits ssh_raw child_raw table pair)

-- Enough calls of `sendmsg` for one that is not interrupted.
send_fd-ends :
    (fuel : ℕ) (calls : ℕ → Sendmsg) (i k : ℕ)
    → k < fuel
    → calls (i + k) ≢ interrupted
    → is_some (send_fd fuel calls i) ≡ true
unfolding send_fd
send_fd-ends zero calls i k low h = ground arith
send_fd-ends (suc fuel) calls i k low h =
    go (calls i) refl (λ j. send_fd-ends fuel calls (suc i) j) k low h
  where
    go :
        (call : Sendmsg)
        → calls i ≡ call
        → ((j : ℕ)
            → j < fuel
            → calls (suc i + j) ≢ interrupted
            → is_some (send_fd fuel calls (suc i)) ≡ true)
        → (k : ℕ) → k < suc fuel
        → calls (i + k) ≢ interrupted
        → is_some {A = Result FdError (Unit {0})} (elim call [
          | sent ↦ some (ok tt)
          | interrupted ↦ send_fd fuel calls (suc i)
          | failed code ↦ some (err (send_failed code))
        ])
          ≡ true
    go sent e rest k low h = refl
    go (failed code) e rest k low h = refl
    go interrupted e rest zero low h =
        absurd (h (subst (λ n. calls n ≡ interrupted) (omega arith) e))
    go interrupted e rest (suc k) low h =
        rest k (omega arith) (λ f. h (subst (λ n. calls n ≡ interrupted) (omega arith) f))

abbrev pub Passes : Option (Result FdError Table) → Type 0
Passes none = ⊥
Passes (some r) = Relays r

-- The parent ends, if some call of `sendmsg` within the fuel is not interrupted; on success the relay
-- has its end of the pair as descriptor 3, /dev/null as the standard streams, and no descriptor of
-- the end that ssh gets, so the connection ends when ssh drops its own. The child's number is not of
-- a standard stream, and no descriptor of the end for ssh was there before the pair was made.
pub run_fdpass_parent-Passes :
    (os : FdOs) (ssh_raw child_raw fuel k : ℕ) (calls : ℕ → Sendmsg) (table : Table)
    → IsPair ssh_raw child_raw table
    → k < fuel
    → calls k ≢ interrupted
    → Passes (run_fdpass_parent os ssh_raw child_raw fuel calls table)
unfolding run_fdpass_parent
run_fdpass_parent-Passes os ssh_raw child_raw fuel k calls table pair low uninterrupted =
    go (bail_if os.socketpair_fails socketpair_failed)
      (spawn_relay_child os child_raw (unix_socketpair ssh_raw child_raw table))
      (spawn_relay_child-Relays os ssh_raw child_raw table pair) (send_fd fuel calls 0)
      (send_fd-ends fuel calls 0 k low
        (subst (λ n. calls n ≢ interrupted) (omega arith) uninterrupted))
  where
    go :
        (pair : Result FdError (Unit {0})) (spawned : Result FdError Table)
        → Relays spawned
        → (end : Option (Result FdError (Unit {0}))) → is_some end ≡ true
        → Passes (elim (pair >> spawned) [
          | err e ↦ some (err e)
          | ok relay ↦ elim end [ none ↦ none | some r ↦ some (r >> ok relay) ]
        ])
    go (err e) spawned h end ends = tt
    go (ok done) (err e) h end ends = tt
    go (ok done) (ok relay) h none ends = cc
    go (ok done) (ok relay) h (some (err e)) ends = tt
    go (ok done) (ok relay) h (some (ok done')) ends = h

-- ===== src/ControlPlane/Tests.antt =====
-- Runs of src/daemon/control_plane.rs, and the theorems at concrete inputs.
use iroh_proxy.Common.{
  ℕ, Bool, ◌≡◌, refl, ◌∷◌, [], length, arith, nat_eq, not, true, false, none, some, ok, err, is_ok,
}
use iroh_proxy.ControlPlane.Socket.{
  SocketFile, ControlDir, SocketOs, Others, already_served, put_socket, fresh_socket,
  bind_control_listener, start_p2p_control_plane,
}
use iroh_proxy.ControlPlane.Starting.{
  idle_others, Started, bind_control_listener-spares, bind_control_listener-recovers,
  start_p2p_control_plane-Started,
}
use iroh_proxy.Common.Dict.{keys, lookup, insert, remove}
use iroh_proxy.ControlPlane.Peers.{
  Connection, Plane, Accepted, ready, add_peer, accept_peer, failed_ids, signalled, remove_peers,
  fan_out, peer_disconnected,
}
use iroh_proxy.ControlPlane.Connected.{
  Reach, starts, accepts, Controlled, Reach-Controlled, peer_disconnected-Controlled,
}
use iroh_proxy.ControlPlane.Signals.{FansOut, fan_out-FansOut}

abbrev works : SocketOs
works = record {
  process = 1;
  create_mode = 493;
  bind_fails = λ again. false;
  metadata_fails = λ again. false;
  probe_fails = false;
  remove_fails = false;
  create_dir_fails = false;
  restrict_dir_fails = false;
  restrict_socket_fails = false;
}

abbrev served : SocketFile
served = record { owner = 2; answers = true; mode = 384 }

abbrev stale : SocketFile
stale = record { owner = 2; answers = false; mode = 384 }

abbrev with_socket : SocketFile → ControlDir
with_socket socket = record { dir_mode = none; socket = some socket }

-- Another server replaces the stale socket right before this one removes it.
abbrev race : Others
race = record idle_others { before_remove = λ d. put_socket (some served) d }

-- Another server replaces the socket that this one bound, right before its permissions are set.
abbrev replaced : Others
replaced = record idle_others { before_chmod = λ d. put_socket (some served) d }

socket_runs : Unit {0}
unfolding bind_control_listener start_p2p_control_plane
socket_runs = tt

socket_tests :
    (start_p2p_control_plane works idle_others (with_socket served)
      ≡ (err already_served, record { dir_mode = some 448; socket = some served }))
    × (is_ok (start_p2p_control_plane works idle_others (with_socket stale)).0 ≡ true)
    × (bind_control_listener works race (with_socket stale)
        ≡ (ok tt, with_socket (fresh_socket works true)))
    × (start_p2p_control_plane works replaced (with_socket stale)
        ≡ (ok tt, record { dir_mode = some 448; socket = some (record served { mode = 384 }) }))
unfolding socket_runs
socket_tests = (refl, refl, refl, refl)

bind_control_listener-spares_example :
    let r = bind_control_listener works idle_others (with_socket served) in
    (is_ok r.0 ≡ false) × (r.1.socket ≡ some served)
bind_control_listener-spares_example =
    bind_control_listener-spares works idle_others (with_socket served) served refl refl refl

bind_control_listener-recovers_example :
    bind_control_listener works idle_others (with_socket stale)
    ≡ (ok tt, put_socket (some (fresh_socket works true)) (with_socket stale))
bind_control_listener-recovers_example =
    bind_control_listener-recovers works (with_socket stale) stale
      (record { binds = λ _. refl; inspects = λ _. refl; probes = refl; removes = refl }) refl refl

start_p2p_control_plane-Started_example :
    Started works (start_p2p_control_plane works idle_others (with_socket stale))
start_p2p_control_plane-Started_example =
    start_p2p_control_plane-Started works idle_others (with_socket stale) (record {
      probe_mode = λ _. refl;
      remove_mode = λ _. refl;
      bind_mode = λ _. refl;
      chmod_mode = λ _. refl;
      chmod_socket = λ _ e. e;
    })

peer_runs : Unit {0}
unfolding add_peer accept_peer failed_ids signalled remove_peers fan_out peer_disconnected keys
    lookup insert remove
peer_runs = tt

abbrev owner_connects : ℕ → Accepted
owner_connects stream = record {
  accepts = true;
  peer_cred = some 501;
  prepares = true;
  builds = true;
  stream = stream;
}

abbrev stranger : Accepted
stranger = record (owner_connects 9) { peer_cred = some 502 }

abbrev two_peers : Plane
two_peers =
    accept_peer (owner_connects 8)
      (accept_peer stranger (accept_peer (owner_connects 7) (ready 501)))

abbrev all_but_7 : Connection → Bool
all_but_7 conn = not (nat_eq conn.stream 7)

peer_tests :
    (keys two_peers.peers ≡ 1 ∷ 2 ∷ [])
    × ((fan_out all_but_7 (λ p. p) two_peers).0 ≡ 8 ∷ [])
    × (keys (fan_out all_but_7 (peer_disconnected 2) two_peers).1.peers ≡ [])
    × (length (peer_disconnected 1 two_peers).monitors ≡ 1)
unfolding peer_runs
peer_tests = (refl, refl, refl, refl)

two_peers-Reach : Reach 501 two_peers
unfolding peer_runs
two_peers-Reach =
    accepts (owner_connects 8)
      (accepts stranger (accepts (owner_connects 7) starts (ground arith)) (ground arith))
      (ground arith)

Reach-Controlled_example : Controlled 501 two_peers
Reach-Controlled_example = Reach-Controlled 501 two_peers two_peers-Reach

two_peers-Controlled : Controlled 501 two_peers
two_peers-Controlled = Reach-Controlled 501 two_peers two_peers-Reach

fan_out-FansOut_example :
    FansOut all_but_7
      (peer_disconnected 2)
      two_peers
      (fan_out all_but_7 (peer_disconnected 2) two_peers)
fan_out-FansOut_example =
    fan_out-FansOut all_but_7 (peer_disconnected 2) two_peers two_peers-Controlled.distinct
      (peer_disconnected-Controlled 501 2 two_peers two_peers-Controlled).distinct

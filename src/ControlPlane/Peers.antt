-- ===== src/ControlPlane/Peers.antt =====
-- src/daemon/control_plane.rs: the peers of the control socket, as the accept loop, the signal fanout
-- and the disconnect monitors change them. Each access locks the table, so an access is one step.
use iroh_proxy.Common.{
  ℕ, ◌+◌, ◌%◌, ◌^◌, Bool, false, Option, none, some, List, [], ◌∷◌, if◌then◌else◌, nat_eq, not,
  retain, is_empty, ℕ_Keyed,
}
use iroh_proxy.Common.Dict.{Dict, insert, remove}

-- A connection of zbus, with the user at its other end.
pub record Connection : Type 0 where
  pub stream : ℕ
  pub uid : ℕ

-- `monitors` has the peers whose monitor's task runs.
pub record Plane : Type 0 where
  pub owner_uid : ℕ
  pub peers : Dict ℕ Connection
  pub next_peer_id : ℕ
  pub monitors : List ℕ

abbrev pub ready : ℕ → Plane
ready owner_uid = record { owner_uid = owner_uid; peers = []; next_peer_id = 1; monitors = [] }

-- What `accept`, `peer_cred` and the building of the connection give.
pub record Accepted : Type 0 where
  pub accepts : Bool
  pub peer_cred : Option ℕ
  pub prepares : Bool
  pub builds : Bool
  pub stream : ℕ

abbrev pub same_user : ℕ → Option ℕ → Bool
same_user owner_uid none = false
same_user owner_uid (some uid) = nat_eq uid owner_uid

-- `authorize` of the macOS listener.
abbrev pub authorize : ℕ → Option ℕ → Bool
authorize owner_uid peer_cred = same_user owner_uid peer_cred

abbrev pub uid_of : Option ℕ → ℕ
uid_of none = 0
uid_of (some uid) = uid

-- `fetch_add` wraps at 64 bits.
unfoldable pub add_peer : Connection → Plane → Plane
add_peer conn plane = record plane {
  peers = insert plane.next_peer_id conn plane.peers;
  next_peer_id = (plane.next_peer_id + 1) % 2 ^ 64;
  monitors = plane.next_peer_id ∷ plane.monitors;
}

-- One turn of the accept loop.
unfoldable pub accept_peer : Accepted → Plane → Plane
unfolding add_peer
accept_peer accepted plane =
    if not accepted.accepts
    then plane
    else if not (authorize plane.owner_uid accepted.peer_cred)
    then plane
    else if not accepted.prepares
    then plane
    else if accepted.builds
    then add_peer (record { stream = accepted.stream; uid = uid_of accepted.peer_cred }) plane
    else plane

-- The loop over the snapshot: the peers to which no signal can be sent. `emits` tells whether
-- `emit_signal` succeeds.
unfoldable pub failed_ids : (Connection → Bool) → Dict ℕ Connection → List ℕ
failed_ids emits [] = []
failed_ids emits ((peer_id, conn) ∷ snapshot) =
    let failed = failed_ids emits snapshot in if emits conn then failed else peer_id ∷ failed

-- The streams that get the signal.
unfoldable pub signalled : (Connection → Bool) → Dict ℕ Connection → List ℕ
signalled emits [] = []
signalled emits ((peer_id, conn) ∷ snapshot) =
    let sent = signalled emits snapshot in if emits conn then conn.stream ∷ sent else sent

unfoldable pub remove_peers : List ℕ → Plane → Plane
remove_peers [] plane = plane
remove_peers (peer_id ∷ failed) plane =
    remove_peers failed (record plane { peers = remove peer_id plane.peers })

-- One signal: the streams that get it, and the table once the peers that failed were removed from
-- what other tasks left meanwhile.
unfoldable pub fan_out : (Connection → Bool) → (Plane → Plane) → Plane → List ℕ × Plane
unfolding failed_ids signalled remove_peers
fan_out emits others plane =
    if is_empty plane.peers
    then ([], others plane)
    else (signalled emits plane.peers, remove_peers (failed_ids emits plane.peers) (others plane))

-- The end of a monitor's task.
unfoldable pub peer_disconnected : ℕ → Plane → Plane
peer_disconnected peer_id plane = record plane {
  peers = remove peer_id plane.peers;
  monitors = retain (λ id. not (nat_eq id peer_id)) plane.monitors;
}

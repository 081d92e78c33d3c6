-- ===== src/ControlPlane/Connected.antt =====
-- src/daemon/control_plane.rs: who is connected, and who gets a signal.
use iroh_proxy.Common.{
  ℕ, ◌+◌, ◌^◌, ◌<◌, ◌≡◌, refl, true, false, not, ◌≢◌, inl, inr, List, [], ◌∷◌, All, nat_eq, retain,
  arith, none, any, ℕ_Keyed, ◌∙◌, sym, Bool-cases, Option, some, if_cases, subst,
}
use iroh_proxy.Common.Dict.{
  Dict, keys, insert, remove, HasDistinctKeys, insert-HasDistinctKeys, remove-HasDistinctKeys,
}
use iroh_proxy.ControlPlane.Peers.{
  Connection, Plane, ready, Accepted, add_peer, accept_peer, remove_peers, peer_disconnected,
  authorize, uid_of,
}

-- The states that steps lead to, with fewer than 2^64 - 1 peers. A signal's removals are of any
-- peers, since its snapshot may be old.
pub data Reach (owner : ℕ) : Plane → Type 0 where
  starts : Reach owner (ready owner)
  accepts :
      {plane : Plane} (accepted : Accepted)
      → Reach owner plane
      → plane.next_peer_id + 1 < 2 ^ 64
      → Reach owner (accept_peer accepted plane)
  drops :
      {plane : Plane} (failed : List ℕ)
      → Reach owner plane
      → Reach owner (remove_peers failed plane)
  disconnects :
      {plane : Plane} (peer_id : ℕ)
      → Reach owner plane
      → Reach owner (peer_disconnected peer_id plane)

-- What holds of an entry of the table.
pub record Entry (owner : ℕ) (plane : Plane) (entry : ℕ × Connection) : Type 0 where
  pub owned : entry.1.uid ≡ owner
  pub below : entry.0 < plane.next_peer_id
  pub monitored : any (λ id. nat_eq id entry.0) plane.monitors ≡ true

pub record Controlled (owner : ℕ) (plane : Plane) : Type 0 where
  pub uid : plane.owner_uid ≡ owner
  pub distinct : HasDistinctKeys plane.peers
  pub entries : All (Entry owner plane) plane.peers

All-remove {ℓ} :
    {V : Type ℓ} (P : ℕ × V → Type 0) (id : ℕ) (m : Dict ℕ V) → All P m → All P (remove id m)
unfolding remove
All-remove P id [] h = tt
All-remove P id ((j, v) ∷ m) h = ground (arith, All-remove P id m h.1)

All-insert {ℓ} :
    {V : Type ℓ} (P : ℕ × V → Type 0) (id : ℕ) (v : V) (m : Dict ℕ V)
    → P (id, v)
    → All P m
    → All P (insert id v m)
unfolding insert
All-insert P id v [] p h = (p, tt)
All-insert P id v ((j, w) ∷ m) p h = ground (arith, All-insert P id v m p h.1)

All-map {ℓ} :
    {A : Type ℓ} (P Q : A → Type 0) (f : (a : A) → P a → Q a) (xs : List A) → All P xs → All Q xs
All-map P Q f [] h = tt
All-map P Q f (x ∷ xs) (p, h) = (f x p, All-map P Q f xs h)

All-remove_key {ℓ} :
    {W : Type ℓ} (P : ℕ × W → Type 0) (id : ℕ) (m : Dict ℕ W)
    → HasDistinctKeys m
    → All P m
    → All (λ entry. P entry × (entry.0 ≢ id)) (remove id m)
unfolding remove keys
All-remove_key P id [] d h = tt
All-remove_key {W = W} P id ((j, v) ∷ m) (new, d) (p, h) = elim (Bool-cases (nat_eq j id)) [
  | inl e ↦ rw e (others j id m (ground arith) new h)
  | inr e ↦ rw e ((p, ground arith), All-remove_key P id m d h)
]
  where
    others :
        (j id : ℕ) (m : Dict ℕ W)
        → j ≡ id
        → All (λ i. i ≢ j) (keys m)
        → All P m
        → All (λ entry. P entry × (entry.0 ≢ id)) m
    others j id [] e new h = tt
    others j id ((i, v) ∷ m) e (n, new) (p, h) = ((p, λ q. n (q ∙ sym e)), others j id m e new h)

accept_peer_cases :
    (accepted : Accepted) (plane : Plane) (P : Plane → Type 0)
    → P plane
    → ((uid : ℕ)
        → uid ≡ plane.owner_uid
        → P (add_peer (record { stream = accepted.stream; uid = uid }) plane))
    → P (accept_peer accepted plane)
unfolding accept_peer
accept_peer_cases accepted plane P stays joins =
    if_cases P (not accepted.accepts) (λ _. stays)
      λ _.
        if_cases P (not (authorize plane.owner_uid accepted.peer_cred)) (λ _. stays)
          λ same.
            if_cases P (not accepted.prepares) (λ _. stays)
              λ _.
                if_cases P accepted.builds (λ _. joins _ (same_uid accepted.peer_cred same))
                  (λ _. stays)
  where
    same_uid :
        (cred : Option ℕ)
        → not (authorize plane.owner_uid cred) ≡ false
        → uid_of cred ≡ plane.owner_uid
    same_uid none e = ground arith
    same_uid (some uid) e = ground arith

any-retain :
    (id gone : ℕ) (ids : List ℕ)
    → id ≢ gone
    → any (λ i. nat_eq i id) ids ≡ true
    → any (λ i. nat_eq i id) (retain (λ i. not (nat_eq i gone)) ids) ≡ true
any-retain id gone [] n h = h
any-retain id gone (i ∷ ids) n h = ground (arith, any-retain id gone ids n)

remove_peers-Controlled :
    (owner : ℕ) (failed : List ℕ) (plane : Plane)
    → Controlled owner plane
    → Controlled owner (remove_peers failed plane)
unfolding remove_peers
remove_peers-Controlled owner [] plane h = h
remove_peers-Controlled owner (id ∷ failed) plane h =
    remove_peers-Controlled owner failed (record plane { peers = remove id plane.peers })
      (record {
        uid = h.uid;
        distinct = remove-HasDistinctKeys id plane.peers h.distinct;
        entries =
            All-map _ _
              (λ e p. record { owned = p.owned; below = p.below; monitored = p.monitored }) _
              (All-remove _ id plane.peers h.entries);
      })

pub peer_disconnected-Controlled :
    (owner id : ℕ) (plane : Plane)
    → Controlled owner plane
    → Controlled owner (peer_disconnected id plane)
unfolding peer_disconnected
peer_disconnected-Controlled owner id plane h = record {
  uid = h.uid;
  distinct = remove-HasDistinctKeys id plane.peers h.distinct;
  entries =
      All-map _ _
        (λ e p. record {
          owned = p.0.owned;
          below = p.0.below;
          monitored = any-retain e.0 id plane.monitors p.1 p.0.monitored;
        })
        _ (All-remove_key (Entry owner plane) id plane.peers h.distinct h.entries);
}

add_peer-Controlled :
    (owner : ℕ) (stream : ℕ) (plane : Plane)
    → plane.next_peer_id + 1 < 2 ^ 64
    → Controlled owner plane
    → Controlled owner (add_peer (record { stream = stream; uid = owner }) plane)
unfolding add_peer
add_peer-Controlled owner stream plane small h = record {
  uid = h.uid;
  distinct = insert-HasDistinctKeys plane.next_peer_id _ plane.peers h.distinct;
  entries =
      All-insert _ plane.next_peer_id _ plane.peers
        (record { owned = refl; below = omega arith; monitored = ground arith })
        (All-map _ _
          (λ e p. record {
            owned = p.owned;
            below = omega (arith, p.below);
            monitored = ground (arith, p.monitored);
          })
          _ h.entries);
}

-- A process of another user never becomes a peer: whatever connects, whichever signals fail and
-- whichever peers leave, the connections in the table are of the daemon's user, under ids that are
-- used once, and each has a monitor that removes it when it ends. Fewer than 2^64 - 1 peers joined.
pub Reach-Controlled : (owner : ℕ) (plane : Plane) → Reach owner plane → Controlled owner plane
Reach-Controlled owner plane starts = record { uid = refl; distinct = tt; entries = tt }
Reach-Controlled owner plane (accepts {plane = before} accepted h small) =
    let known = Reach-Controlled owner before h in
    accept_peer_cases accepted before (Controlled owner) known λ uid e.
      subst (λ u. Controlled owner (add_peer (record { stream = accepted.stream; uid = u }) before))
        (sym (e ∙ known.uid)) (add_peer-Controlled owner accepted.stream before small known)
Reach-Controlled owner plane (drops {plane = before} failed h) =
    remove_peers-Controlled owner failed before (Reach-Controlled owner before h)
Reach-Controlled owner plane (disconnects {plane = before} id h) =
    peer_disconnected-Controlled owner id before (Reach-Controlled owner before h)

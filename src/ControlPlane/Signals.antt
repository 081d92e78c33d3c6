-- ===== src/ControlPlane/Signals.antt =====
-- src/daemon/control_plane.rs: who gets a state change signal, and who is dropped for it.
use iroh_proxy.Common.{
  ℕ, ◌≡◌, refl, sym, subst, ◌∙◌, ap, Bool, false, not, Option, none, some, List, [], ◌∷◌, map,
  retain, any, nat_eq, is_empty, arith, if◌then◌else◌, ℕ_Keyed,
}
use iroh_proxy.Common.Dict.{
  Dict, keys, values, lookup, remove, HasDistinctKeys, lookup-remove, remove-HasDistinctKeys,
  lookup-absent,
}
use iroh_proxy.ControlPlane.Peers.{Connection, Plane, failed_ids, signalled, remove_peers, fan_out}

-- No signal can be sent to the peer.
abbrev pub refuses : (Connection → Bool) → Option Connection → Bool
refuses emits none = false
refuses emits (some conn) = not (emits conn)

any-failed_ids :
    (emits : Connection → Bool) (id : ℕ) (m : Dict ℕ Connection)
    → HasDistinctKeys m
    → any (λ i. nat_eq i id) (failed_ids emits m) ≡ refuses emits (lookup id m)
unfolding failed_ids lookup keys
any-failed_ids emits id [] h = refl
any-failed_ids emits id ((j, conn) ∷ m) (new, h) =
    ground (arith, any-failed_ids emits id m h, lookup-absent j m new)

lookup-remove_peers :
    (id : ℕ) (failed : List ℕ) (plane : Plane)
    → HasDistinctKeys plane.peers
    → lookup id (remove_peers failed plane).peers
      ≡ (if any (λ i. nat_eq i id) failed then none else lookup id plane.peers)
unfolding remove_peers
lookup-remove_peers id [] plane h = refl
lookup-remove_peers id (gone ∷ failed) plane h = ground (
  arith,
  lookup-remove_peers id failed (record plane { peers = remove gone plane.peers })
      (remove-HasDistinctKeys gone plane.peers h),
  lookup-remove gone id plane.peers h,
)

signalled_lem :
    (emits : Connection → Bool) (m : Dict ℕ Connection)
    → signalled emits m ≡ map (λ conn. conn.stream) (retain emits (values m))
unfolding signalled values
signalled_lem emits [] = refl
signalled_lem emits ((j, conn) ∷ m) = ground (arith, signalled_lem emits m)

pub record FansOut (emits : Connection → Bool) (others : Plane → Plane) (plane : Plane)
    (r : List ℕ × Plane) : Type 0 where
  pub sent : r.0 ≡ map (λ conn. conn.stream) (retain emits (values plane.peers))
  pub kept :
      (id : ℕ)
      → lookup id r.1.peers
        ≡ (if refuses emits (lookup id plane.peers) then none else lookup id (others plane).peers)

-- A signal reaches exactly the peers of the table to which it can be sent, and afterwards exactly the
-- others of them are gone from what the table has become meanwhile. No id stands twice in the table,
-- at the start and at the removal.
pub fan_out-FansOut :
    (emits : Connection → Bool) (others : Plane → Plane) (plane : Plane)
    → HasDistinctKeys plane.peers
    → HasDistinctKeys (others plane).peers
    → FansOut emits others plane (fan_out emits others plane)
unfolding fan_out
fan_out-FansOut emits others plane h k =
    subst (FansOut emits others plane) (sym (both plane.peers)) (record {
      sent = signalled_lem emits plane.peers;
      kept = λ id.
          lookup-remove_peers id (failed_ids emits plane.peers) (others plane) k
          ∙ ap (λ b. if b then none else lookup id (others plane).peers)
              (any-failed_ids emits id plane.peers h);
    })
  where
    swept : Dict ℕ Connection → List ℕ × Plane
    swept m = (signalled emits m, remove_peers (failed_ids emits m) (others plane))

    both : (m : Dict ℕ Connection) → (if is_empty m then ([], others plane) else swept m) ≡ swept m
    both [] = refl
    both (entry ∷ m) = refl

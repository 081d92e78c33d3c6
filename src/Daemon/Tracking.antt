-- ===== src/Daemon/Tracking.antt =====
-- src/daemon/connections.rs: the registry tracks exactly the guards that are held.
use iroh_proxy.Common.{
  ℕ, ◌+◌, ◌%◌, ◌^◌, ◌≤◌, ◌<◌, ◌≡◌, refl, sym, ap, subst, ◌∙◌, ◌≢◌, List, [], ◌∷◌, ◌++◌, arith,
  length, length-append, All, All-append, nat_eq, ℕ_Keyed, if◌then◌else◌, none,
}
use iroh_proxy.Common.Dict.{
  Dict, keys, lookup, insert, remove, length-keys, HasDistinctKeys, insert-HasDistinctKeys,
  remove-HasDistinctKeys, lookup-absent, lookup-remove,
}
use iroh_proxy.Common.Text.{Text, text_eq, text_Keyed}
use iroh_proxy.Daemon.Connections.{
  ActiveConnection, ConnectionRegistry, empty_registry, register, drop_guard, len,
  connection_opened, connection_closed,
}

-- The registry and the guards held by the connections' tasks, after any interleaving of
-- registrations and drops, with the list of these, a registration as `connection_opened` and a drop
-- as `connection_closed`. A guard is dropped once. Fewer than 2^64 - 1 connections were registered.
pub data Reach : ConnectionRegistry → List ℕ → List Text → Type 0 where
  fresh_start : Reach empty_registry [] []
  registers :
      {r : ConnectionRegistry} {guards : List ℕ} {steps : List Text} (info : ActiveConnection)
      → Reach r guards steps
      → r.next_id + 1 < 2 ^ 64
      → Reach
          (register info r).1
          (guards ++ ((register info r).0 ∷ []))
          (steps ++ (connection_opened ∷ []))
  drops :
      {r : ConnectionRegistry} {guards : List ℕ} {steps : List Text} (held later : List ℕ) (id : ℕ)
      → Reach r guards steps
      → guards ≡ held ++ (id ∷ later)
      → Reach (drop_guard id r) (held ++ later) (steps ++ (connection_closed ∷ []))

-- How often a reason was sent.
abbrev pub count : Text → List Text → ℕ
count reason [] = 0
count reason (e ∷ events) = (if text_eq e reason then 1 else 0) + count reason events

count-append :
    (reason : Text) (xs ys : List Text)
    → count reason (xs ++ ys) ≡ count reason xs + count reason ys
count-append reason [] ys = omega arith
count-append reason (x ∷ xs) ys = omega (arith, count-append reason xs ys)

pub record Tracks (r : ConnectionRegistry) (guards : List ℕ) : Type 0 where
  pub table : keys r.active ≡ guards
  pub below : All (λ id. id < r.next_id) guards
  pub distinct : HasDistinctKeys r.active
  pub balance : count connection_opened r.events ≡ count connection_closed r.events + length guards

keys-insert_new :
    (id : ℕ) (info : ActiveConnection) (m : Dict ℕ ActiveConnection)
    → All (λ i. i < id) (keys m)
    → keys (insert id info m) ≡ keys m ++ (id ∷ [])
unfolding keys insert
keys-insert_new id info [] h = refl
keys-insert_new id info ((j, v) ∷ m) h = ground (arith, keys-insert_new id info m h.1)

All-mono : (a b : ℕ) (l : List ℕ) → a ≤ b → All (λ i. i < a) l → All (λ i. i < b) l
All-mono a b [] h k = tt
All-mono a b (x ∷ l) h (p, k) = (omega arith, All-mono a b l h k)

All-ne : (n : ℕ) (l : List ℕ) → All (λ i. i < n) l → All (λ i. i ≢ n) l
All-ne n [] h = tt
All-ne n (x ∷ l) (p, h) = (omega arith, All-ne n l h)

All-drop :
    (P : ℕ → Type 0) (held later : List ℕ) (id : ℕ)
    → All P (held ++ (id ∷ later))
    → All P (held ++ later)
All-drop P [] later id (p, h) = h
All-drop P (x ∷ held) later id (p, h) = (p, All-drop P held later id h)

All-middle : (P : ℕ → Type 0) (held later : List ℕ) (id : ℕ) → All P (held ++ (id ∷ later)) → P id
All-middle P [] later id (p, h) = p
All-middle P (x ∷ held) later id (p, h) = All-middle P held later id h

keys-remove :
    (id : ℕ) (m : Dict ℕ ActiveConnection) (held later : List ℕ)
    → HasDistinctKeys m
    → keys m ≡ held ++ (id ∷ later)
    → keys (remove id m) ≡ held ++ later
unfolding keys remove
keys-remove id [] [] later h e = cc
keys-remove id [] (x ∷ held) later h e = cc
keys-remove id ((j, v) ∷ m) [] later h e = ground arith
keys-remove id ((j, v) ∷ m) (x ∷ held) later (new, h) e =
    let tail : keys m ≡ held ++ (id ∷ later) = cc in
    let apart : id ≢ j =
      All-middle (λ i. i ≢ j) held later id (subst (All (λ i. i ≢ j)) tail new) in
    ground (arith, keys-remove id m held later h tail)

register-Tracks :
    (info : ActiveConnection) (r : ConnectionRegistry) (guards : List ℕ)
    → Tracks r guards
    → r.next_id + 1 < 2 ^ 64
    → Tracks (register info r).1 (guards ++ ((register info r).0 ∷ []))
unfolding register text_eq
register-Tracks info r guards t h = record {
  table =
      keys-insert_new r.next_id info r.active
        (subst (All (λ i. i < r.next_id)) (sym t.table) t.below)
      ∙ ap (λ l. l ++ (r.next_id ∷ [])) t.table;
  below =
      All-append _ guards (r.next_id ∷ [])
        (All-mono r.next_id ((r.next_id + 1) % 2 ^ 64) guards (omega arith) t.below) (omega arith);
  distinct = insert-HasDistinctKeys r.next_id info r.active t.distinct;
  balance = omega (
    arith,
    count-append connection_opened r.events (connection_opened ∷ []),
    count-append connection_closed r.events (connection_opened ∷ []),
    length-append guards (r.next_id ∷ []),
  );
}

drop-Tracks :
    (id : ℕ) (r : ConnectionRegistry) (held later : List ℕ)
    → Tracks r (held ++ (id ∷ later))
    → Tracks (drop_guard id r) (held ++ later)
unfolding drop_guard text_eq
drop-Tracks id r held later t = record {
  table = keys-remove id r.active held later t.distinct t.table;
  below = All-drop (λ i. i < r.next_id) held later id t.below;
  distinct = remove-HasDistinctKeys id r.active t.distinct;
  balance = omega (
    arith,
    count-append connection_opened r.events (connection_closed ∷ []),
    count-append connection_closed r.events (connection_closed ∷ []),
    length-append held (id ∷ later),
    length-append held later,
  );
}

Reach-Tracks :
    {r : ConnectionRegistry} {guards : List ℕ} {steps : List Text}
    → Reach r guards steps
    → Tracks r guards
unfolding keys
Reach-Tracks fresh_start = record { table = refl; below = tt; distinct = tt; balance = refl }
Reach-Tracks (registers {r} {guards} info reach h) =
    register-Tracks info r guards (Reach-Tracks reach) h
Reach-Tracks (drops {r} {guards} held later id reach e) =
    drop-Tracks id r held later (subst (Tracks r) e (Reach-Tracks reach))

Reach-announced :
    {r : ConnectionRegistry} {guards : List ℕ} {steps : List Text}
    → Reach r guards steps
    → r.events ≡ steps
unfolding register drop_guard
Reach-announced fresh_start = refl
Reach-announced (registers info reach h) =
    ap (λ l. l ++ (connection_opened ∷ [])) (Reach-announced reach)
Reach-announced (drops held later id reach e) =
    ap (λ l. l ++ (connection_closed ∷ [])) (Reach-announced reach)

-- After any interleaving, the events are one announcement for each registration and for each drop, in
-- the order in which these were made, and so as many opened as closed connections and open ones; the
-- number of connections reported is the number of guards held, the table holds exactly the ids of the
-- guards, and the next registration's id is above all of them and in no entry. Fewer than 2^64 - 1
-- connections were registered, and a guard is dropped once.
pub Reach-tracked :
    {r : ConnectionRegistry} {guards : List ℕ} {steps : List Text}
    → Reach r guards steps
    → (r.events ≡ steps)
      × (count connection_opened r.events ≡ count connection_closed r.events + len r)
      × (len r ≡ length guards)
      × (keys r.active ≡ guards)
      × All (λ id. id < r.next_id) guards
      × (lookup r.next_id r.active ≡ none)
unfolding len
Reach-tracked {r} {guards} reach =
    let t = Reach-Tracks reach in
    let size : length r.active ≡ length guards = sym (length-keys r.active) ∙ ap length t.table in
    (
      Reach-announced reach,
      omega (arith, t.balance),
      size,
      t.table,
      t.below,
      lookup-absent r.next_id r.active
          (subst (All (λ i. i ≢ r.next_id)) (sym t.table) (All-ne r.next_id guards t.below)),
    )

-- Dropping a guard removes its own connection and no other.
pub drop_guard-lookup :
    {r : ConnectionRegistry} {guards : List ℕ} {steps : List Text} (id other : ℕ)
    → Reach r guards steps
    → lookup other (drop_guard id r).active
      ≡ (if nat_eq id other then none else lookup other r.active)
unfolding drop_guard
drop_guard-lookup {r} id other reach = lookup-remove id other r.active (Reach-Tracks reach).distinct

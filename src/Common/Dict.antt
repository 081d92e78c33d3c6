-- ===== src/Common/Dict.antt =====
-- HashMap as an association list. The list order stands for the map's unspecified iteration order.
use Prim.Native.Nat.{◌+◌}
use mathlib.Core.Path.{◌≡◌, refl, subst}
use mathlib.Core.Logic.{◌≢◌, ◌⊎◌, inl, inr}
use mathlib.Core.Bool.{Bool, true, false}
use mathlib.Core.Option.{Option, none, some}
use mathlib.Core.List.{List, [], ◌∷◌}
use native.Mathlib.Omega.{arith}
use iroh_proxy.Common.Tests.{Keyed, ◌==◌, if◌then◌else◌, Bool-cases, is_some}
use iroh_proxy.Common.Lists.{length, All}

abbrev pub Dict {ℓ κ} : Type κ → Type ℓ → Type (ℓ ⊔ κ)
Dict K V = List (K × V)

module _ {ℓ κ} {K : Type κ} {V : Type ℓ} where
  unfoldable pub keys : Dict K V → List K
  keys [] = []
  keys ((k, v) ∷ m) = k ∷ keys m

  unfoldable pub values : Dict K V → List V
  values [] = []
  values ((k, v) ∷ m) = v ∷ values m

  pub length-keys : (m : Dict K V) → length (keys m) ≡ length m
  unfolding keys
  length-keys [] = refl
  length-keys ((k, v) ∷ m) = omega (arith, length-keys m)

  -- No key is bound twice.
  abbrev pub HasDistinctKeys : Dict K V → Type κ
  HasDistinctKeys [] = Unit
  HasDistinctKeys ((k, v) ∷ m) = All (λ j. j ≢ k) (keys m) × HasDistinctKeys m

pub same_refl {κ} : {K : Type κ} ⦃e : Keyed K⦄ (k : K) → (k == k) ≡ true
same_refl ⦃e⦄ k = (e.same_iff k k).1 refl

module _ {ℓ κ} {K : Type κ} {V : Type ℓ} ⦃e : Keyed K⦄ where
  -- HashMap::get.
  unfoldable pub lookup : K → Dict K V → Option V
  lookup wanted ((key, value) ∷ rest) = if key == wanted then some value else lookup wanted rest
  lookup wanted [] = none

  unfoldable pub contains_key : K → Dict K V → Bool
  unfolding lookup
  contains_key wanted dict = is_some (lookup wanted dict)

  -- HashMap::remove, whose result is the value that was there.
  unfoldable pub remove : K → Dict K V → Dict K V
  remove gone ((key, value) ∷ rest) = if key == gone then rest else (key, value) ∷ remove gone rest
  remove gone [] = []

  -- HashMap::insert: a key that is present keeps its place and gets the new value.
  unfoldable pub insert : K → V → Dict K V → Dict K V
  insert new fresh ((key, value) ∷ rest) =
      if key == new then (new, fresh) ∷ rest else (key, value) ∷ insert new fresh rest
  insert new fresh [] = (new, fresh) ∷ []

  pub lookup-insert :
      (new wanted : K) (fresh : V) (dict : Dict K V)
      → lookup wanted (insert new fresh dict)
        ≡ (if new == wanted then some fresh else lookup wanted dict)
  unfolding lookup insert
  lookup-insert new wanted fresh ((key, value) ∷ rest) = ground (
    arith,
    lookup-insert new wanted fresh rest,
    e.same_iff key new,
    e.same_iff key wanted,
    e.same_iff new wanted,
  )
  lookup-insert new wanted fresh [] = refl

  pub lookup-insert_self : (k : K) (v : V) (m : Dict K V) → lookup k (insert k v m) ≡ some v
  lookup-insert_self k v m = rw (lookup-insert k k v m, same_refl k)

  pub insert-insert : (k : K) (v u : V) (m : Dict K V) → insert k v (insert k u m) ≡ insert k v m
  unfolding insert
  insert-insert k v u [] = ground (arith, same_refl k)
  insert-insert k v u ((j, w) ∷ m) =
      ground (arith, same_refl k, e.same_iff j k, insert-insert k v u m)

  pub lookup-absent : (k : K) (m : Dict K V) → All (λ j. j ≢ k) (keys m) → lookup k m ≡ none
  unfolding lookup keys
  lookup-absent k [] h = refl
  lookup-absent k ((j, w) ∷ m) h = ground (arith, e.same_iff j k, lookup-absent k m h.1)

  pub absent-lookup : (k : K) (m : Dict K V) → lookup k m ≡ none → All (λ j. j ≢ k) (keys m)
  unfolding lookup keys
  absent-lookup k [] h = tt
  absent-lookup k ((j, w) ∷ m) h = ground (arith, e.same_iff j k, absent-lookup k m)

  pub lookup-remove :
      (k j : K) (m : Dict K V)
      → HasDistinctKeys m
      → lookup j (remove k m) ≡ (if k == j then none else lookup j m)
  unfolding lookup remove keys
  lookup-remove k j [] h = ground arith
  lookup-remove k j ((i, w) ∷ m) (new, h) = ground (
    arith,
    e.same_iff k j,
    e.same_iff i k,
    e.same_iff i j,
    lookup-remove k j m h,
    lookup-absent i m new,
  )

  keys-remove-All :
      (P : K → Type κ) (k : K) (m : Dict K V) → All P (keys m) → All P (keys (remove k m))
  unfolding remove keys
  keys-remove-All P k [] h = tt
  keys-remove-All P k ((j, w) ∷ m) h = ground (arith, keys-remove-All P k m h.1)

  keys-insert-All :
      (P : K → Type κ) (k : K) (v : V) (m : Dict K V)
      → P k
      → All P (keys m)
      → All P (keys (insert k v m))
  unfolding insert keys
  keys-insert-All P k v [] p h = (p, tt)
  keys-insert-All P k v ((j, w) ∷ m) p h = ground (arith, keys-insert-All P k v m p h.1)

  pub remove-HasDistinctKeys :
      (k : K) (m : Dict K V) → HasDistinctKeys m → HasDistinctKeys (remove k m)
  unfolding remove keys
  remove-HasDistinctKeys k [] h = tt
  remove-HasDistinctKeys k ((j, w) ∷ m) (new, h) =
      ground (arith, keys-remove-All (λ i. i ≢ j) k m new, remove-HasDistinctKeys k m h)

  pub insert-HasDistinctKeys :
      (k : K) (v : V) (m : Dict K V) → HasDistinctKeys m → HasDistinctKeys (insert k v m)
  unfolding insert keys
  insert-HasDistinctKeys k v [] h = (tt, tt)
  insert-HasDistinctKeys k v ((j, w) ∷ m) (new, h) = elim (Bool-cases (j == k)) [
    | inl same ↦ rw same (subst (λ i. All (λ l. l ≢ i) (keys m)) ((e.same_iff j k).0 same) new, h)
    | inr other ↦ rw other (
      keys-insert-All (λ i. i ≢ j) k v m (λ q. ground (arith, e.same_iff j k, q)) new,
      insert-HasDistinctKeys k v m h,
    )
  ]

  pub length-insert_new :
      (k : K) (v : V) (m : Dict K V)
      → contains_key k m ≡ false
      → length (insert k v m) ≡ length m + 1
  unfolding insert contains_key
  length-insert_new k v [] h = omega arith
  length-insert_new k v ((j, w) ∷ m) h = ground (arith, length-insert_new k v m)

  pub length-remove_present :
      (k : K) (m : Dict K V) → contains_key k m ≡ true → length (remove k m) + 1 ≡ length m
  unfolding remove contains_key
  length-remove_present k [] h = cc
  length-remove_present k ((j, w) ∷ m) h = ground (arith, length-remove_present k m)

  pub contains_key-lookup : (k : K) (m : Dict K V) → contains_key k m ≡ is_some (lookup k m)
  unfolding contains_key
  contains_key-lookup k m = refl

  -- An entry that was added last is removed without a trace.
  pub remove-insert_new :
      (k : K) (v : V) (m : Dict K V) → lookup k m ≡ none → remove k (insert k v m) ≡ m
  unfolding lookup insert remove
  remove-insert_new k v [] h = ground (arith, e.same_iff k k)
  remove-insert_new k v ((j, w) ∷ m) h = ground (arith, e.same_iff j k, remove-insert_new k v m)

  pub lookup-insert_cases :
      (new wanted : K) (fresh v : V) (m : Dict K V)
      → lookup wanted (insert new fresh m) ≡ some v
      → ((new ≡ wanted) × (fresh ≡ v)) ⊎ ((new ≢ wanted) × (lookup wanted m ≡ some v))
  lookup-insert_cases new wanted fresh v m h =
      ground (arith, e.same_iff new wanted, lookup-insert new wanted fresh m)

  -- A new entry leaves the others.
  pub lookup-insert_other :
      (new wanted : K) (fresh v : V) (m : Dict K V)
      → lookup new m ≡ none
      → lookup wanted m ≡ some v
      → lookup wanted (insert new fresh m) ≡ some v
  lookup-insert_other new wanted fresh v m absent there =
      ground (arith, e.same_iff new wanted, lookup-insert new wanted fresh m)

  pub lookup-remove_cases :
      (gone wanted : K) (v : V) (m : Dict K V)
      → HasDistinctKeys m
      → lookup wanted (remove gone m) ≡ some v
      → (gone ≢ wanted) × (lookup wanted m ≡ some v)
  lookup-remove_cases gone wanted v m h found =
      ground (arith, e.same_iff gone wanted, lookup-remove gone wanted m h)

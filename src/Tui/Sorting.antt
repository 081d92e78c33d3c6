-- ===== src/Tui/Sorting.antt =====
-- src/tui.rs: `sort_by` of the standard library, a stable sort, as insertion from the front.
use mathlib.Core.List.{Perm}
use mathlib.Core.List.Perm
use iroh_proxy.Common.{
  ℕ, ◌≡◌, refl, inl, inr, Bool, true, false, List, [], ◌∷◌, arith, ltb, if◌then◌else◌, All,
  Bool-cases,
}
use iroh_proxy.Common.Text.{Text}

-- `str::cmp`: the order of UTF-8 bytes is that of the code points.
unfoldable pub text_lt : Text → Text → Bool
text_lt [] [] = false
text_lt [] (d ∷ t) = true
text_lt (c ∷ s) [] = false
text_lt (c ∷ s) (d ∷ t) = if ltb c d then true else if ltb d c then false else text_lt s t

module _ {ℓ} {A : Type ℓ} (before : A → A → Bool) where
  unfoldable pub insert_sorted : A → List A → List A
  insert_sorted x [] = x ∷ []
  insert_sorted x (y ∷ ys) = if before y x then y ∷ insert_sorted x ys else x ∷ y ∷ ys

  unfoldable pub sort_by : List A → List A
  unfolding insert_sorted
  sort_by [] = []
  sort_by (x ∷ xs) = insert_sorted x (sort_by xs)

-- No entry stands before one that comes after it.
module _ {A : Type 0} (before : A → A → Bool) where
  abbrev pub Ordered : List A → Type 0
  Ordered [] = Unit
  Ordered (x ∷ xs) = All (λ y. before y x ≡ false) xs × Ordered xs

  -- The laws of a comparison by `cmp`.
  pub record Compares : Type 0 where
    pub one_way : (x y : A) → before x y ≡ true → before y x ≡ false
    pub chains : (x y z : A) → before x y ≡ false → before y z ≡ false → before x z ≡ false

  insert_sorted-All :
      (P : A → Type 0) (x : A) (ys : List A) → P x → All P ys → All P (insert_sorted before x ys)
  unfolding insert_sorted
  insert_sorted-All P x [] p h = (p, tt)
  insert_sorted-All P x (y ∷ ys) p (q, h) = ground (arith, insert_sorted-All P x ys p h)

  All-chain :
      Compares
      → (x y : A) (zs : List A) → before y x ≡ false
      → All (λ z. before z y ≡ false) zs
      → All (λ z. before z x ≡ false) zs
  All-chain laws x y [] first h = tt
  All-chain laws x y (z ∷ zs) first (q, h) =
      (laws.chains z y x q first, All-chain laws x y zs first h)

  insert_sorted-Ordered :
      Compares → (x : A) (ys : List A) → Ordered ys → Ordered (insert_sorted before x ys)
  unfolding insert_sorted
  insert_sorted-Ordered laws x [] h = (tt, tt)
  insert_sorted-Ordered laws x (y ∷ ys) (least, h) = elim (Bool-cases (before y x)) [
    | inl less ↦ rw less (
      insert_sorted-All (λ z. before z y ≡ false) x ys (laws.one_way y x less) least,
      insert_sorted-Ordered laws x ys h,
    )
    | inr not_less ↦ rw not_less ((not_less, All-chain laws x y ys not_less least), (least, h))
  ]

  pub sort_by-Ordered : Compares → (xs : List A) → Ordered (sort_by before xs)
  unfolding sort_by
  sort_by-Ordered laws [] = tt
  sort_by-Ordered laws (x ∷ xs) =
      insert_sorted-Ordered laws x (sort_by before xs) (sort_by-Ordered laws xs)

  insert_sorted-Perm : (x : A) (ys : List A) → Perm (x ∷ ys) (insert_sorted before x ys)
  unfolding insert_sorted
  insert_sorted-Perm x [] = Perm.rfl
  insert_sorted-Perm x (y ∷ ys) = elim (Bool-cases (before y x)) [
    | inl less ↦ rw less (Perm.trans (Perm.swap y x ys) (Perm.cons y (insert_sorted-Perm x ys)))
    | inr not_less ↦ rw not_less Perm.rfl
  ]

  pub sort_by-Perm : (xs : List A) → Perm xs (sort_by before xs)
  unfolding sort_by
  sort_by-Perm [] = Perm.rfl
  sort_by-Perm (x ∷ xs) =
      Perm.trans (Perm.cons x (sort_by-Perm xs)) (insert_sorted-Perm x (sort_by before xs))

text_lt-one_way : (s t : Text) → text_lt s t ≡ true → text_lt t s ≡ false
unfolding text_lt
text_lt-one_way [] [] h = refl
text_lt-one_way [] (d ∷ t) h = refl
text_lt-one_way (c ∷ s) [] h = cc h
text_lt-one_way (c ∷ s) (d ∷ t) h = ground (arith, text_lt-one_way s t)

text_lt-chains : (s t u : Text) → text_lt s t ≡ false → text_lt t u ≡ false → text_lt s u ≡ false
unfolding text_lt
text_lt-chains [] [] u h k = k
text_lt-chains [] (d ∷ t) u h k = cc h
text_lt-chains (c ∷ s) [] [] h k = refl
text_lt-chains (c ∷ s) [] (e ∷ u) h k = cc k
text_lt-chains (c ∷ s) (d ∷ t) [] h k = refl
text_lt-chains (c ∷ s) (d ∷ t) (e ∷ u) h k = ground (arith, text_lt-chains s t u)

pub text_lt-Compares : {A : Type 0} (key : A → Text) → Compares (λ a b. text_lt (key a) (key b))
text_lt-Compares key = record {
  one_way = λ x y. text_lt-one_way (key x) (key y);
  chains = λ x y z. text_lt-chains (key x) (key y) (key z);
}

pub descending-Compares : {A : Type 0} (key : A → ℕ) → Compares (λ a b. ltb (key b) (key a))
descending-Compares key = record {
  one_way = λ x y h. ground arith;
  chains = λ x y z h k. ground arith;
}

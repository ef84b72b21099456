-- ===== src/Prelude/SortedMap.antt =====
-- Rust's `BTreeMap` as the list of its entries in the order of the keys.
use Prim.Native.Nat.{Ordering}
use Prim.Native.Nat.Ordering.{lt, eq, gt}
use mathlib.Core.Path.{◌≡◌, refl, sym, subst}
use mathlib.Core.Bool.{Bool, true, false}
use mathlib.Core.Option.{Option, none, some}
use mathlib.Core.Logic.{◌⊎◌, inl, inr}
use mathlib.Core.List.{List, [], ◌∷◌}
use native.Mathlib.Omega.{arith}
use zydecodb.Prelude.Lists.{All}
use zydecodb.Prelude.Tests.{if◌then◌else◌}
use zydecodb.Prelude.Order.{IsTotal}

abbrev pub is_lt : Ordering → Bool
is_lt lt = true
is_lt _ = false

abbrev pub is_eq : Ordering → Bool
is_eq eq = true
is_eq _ = false

-- `x` is an element.
abbrev pub Has : {A : Type 0} → A → List A → Type 0
Has x [] = ⊥
Has x (y ∷ ys) = (x ≡ y) ⊎ Has x ys

pub All-Has {κ} : {A : Type 0} (P : A → Type κ) (x : A) (ys : List A) → All P ys → Has x ys → P x
All-Has P x [] a h = absurd h
All-Has P x (y ∷ ys) a (inl e) = subst P (sym e) a.0
All-Has P x (y ∷ ys) a (inr h) = All-Has P x ys a.1 h

pub All-imp {ℓ κ μ} :
    {A : Type ℓ} (P : A → Type κ) (Q : A → Type μ) (xs : List A)
    → ((x : A) → P x → Q x)
    → All P xs
    → All Q xs
All-imp P Q [] f a = tt
All-imp P Q (x ∷ xs) f a = (f x a.0, All-imp P Q xs f a.1)

pub All-Has_self : {A : Type 0} (xs : List A) → All (λ x. Has x xs) xs
All-Has_self [] = tt
All-Has_self (x ∷ xs) =
    (inl refl, All-imp (λ y. Has y xs) (λ y. Has y (x ∷ xs)) xs (λ y h. inr h) (All-Has_self xs))

module _ {ℓ κ} {K : Type ℓ} {V : Type κ} (cmp : K → K → Ordering) where
  -- `BTreeMap::insert`: the old value of the key, and the new map.
  unfoldable pub insert : K → V → List (K × V) → Option V × List (K × V)
  insert k v [] = (none, (k, v) ∷ [])
  insert k v ((j, w) ∷ m) =
      let (old, rest) = insert k v m in
      elim (cmp k j) [
        | lt ↦ (none, (k, v) ∷ (j, w) ∷ m)
        | eq ↦ (some w, (k, v) ∷ m)
        | gt ↦ (old, (j, w) ∷ rest)
      ]

  -- `range((Included(lo), Unbounded)).next()`.
  unfoldable pub seek : K → List (K × V) → Option (K × V)
  seek lo [] = none
  seek lo ((k, v) ∷ m) = if is_lt (cmp k lo) then seek lo m else some (k, v)

  -- `range((Included(lo), Excluded(hi)))`.
  unfoldable pub range : K → K → List (K × V) → List (K × V)
  range lo hi [] = []
  range lo hi ((k, v) ∷ m) =
      let rest = range lo hi m in
      if is_lt (cmp k lo) then rest else if is_lt (cmp k hi) then (k, v) ∷ rest else rest

  abbrev pub IsSorted : List (K × V) → Type (ℓ ⊔ κ)
  IsSorted [] = Unit
  IsSorted ((k, v) ∷ m) = All (λ kv. cmp k kv.0 ≡ lt) m × IsSorted m

  module _ (t : IsTotal cmp) where
    pub insert-All :
        (P : K × V → Type 0) (k : K) (v : V) (m : List (K × V))
        → P (k, v)
        → All P m
        → All P (insert k v m).1
    unfolding insert
    insert-All P k v [] p a = (p, tt)
    insert-All P k v ((j, w) ∷ m) p a = ground (arith, insert-All P k v m p a.1)

    below-All :
        (k j : K) (m : List (K × V))
        → cmp k j ≡ lt
        → All (λ kv. cmp j kv.0 ≡ lt) m
        → All (λ kv. cmp k kv.0 ≡ lt) m
    below-All k j m h a =
        All-imp (λ kv. cmp j kv.0 ≡ lt) (λ kv. cmp k kv.0 ≡ lt) m (λ kv g. t.trans k j kv.0 h g) a

    pub insert-IsSorted :
        (k : K) (v : V) (m : List (K × V)) → IsSorted m → IsSorted (insert k v m).1
    unfolding insert
    insert-IsSorted k v [] s = (tt, tt)
    insert-IsSorted k v ((j, w) ∷ m) s = ground (
      arith,
      insert-IsSorted k v m s.1,
      below-All k j m,
      t.same k j,
      t.turn k j,
      insert-All (λ kv. cmp j kv.0 ≡ lt) k v m,
    )

module _ {K V : Type 0} (cmp : K → K → Ordering) (t : IsTotal cmp) where
  pub Has-insert : (k : K) (v : V) (m : List (K × V)) → Has (k, v) (insert cmp k v m).1
  unfolding insert
  Has-insert k v [] = inl refl
  Has-insert k v ((j, w) ∷ m) = ground (arith, Has-insert k v m)

  pub Has-of_insert :
      (k : K) (v : V) (m : List (K × V)) (x : K × V)
      → Has x (insert cmp k v m).1
      → (x ≡ (k, v)) ⊎ Has x m
  unfolding insert
  Has-of_insert k v [] x h = h
  Has-of_insert k v ((j, w) ∷ m) x h = ground (arith, Has-of_insert k v m x)

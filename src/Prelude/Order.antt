-- ===== src/Prelude/Order.antt =====
-- Rust's `Ordering` and the trait `Ord`: the laws of a total comparison, and the ways in which the
-- code builds one (`then_with`, slices, a comparison through a key).
use Prim.Native.Nat.{compare, Ordering}
use Prim.Native.Nat.Ordering.{lt, eq, gt}
use mathlib.Core.Path.{◌≡◌, refl, sym}
use mathlib.Core.List.{List, [], ◌∷◌}
use native.Mathlib.Omega.{arith}

-- `Ordering::then_with`: the second comparison decides a tie.
abbrev pub then_with : Ordering → Ordering → Ordering
then_with lt o = lt
then_with eq o = o
then_with gt o = gt

-- `Ordering::reverse`.
abbrev pub swap : Ordering → Ordering
swap lt = gt
swap eq = eq
swap gt = lt

pub then_with_assoc : (a b c : Ordering) → then_with (then_with a b) c ≡ then_with a (then_with b c)
then_with_assoc a b c = ground arith

pub swap-then_with : (a b : Ordering) → swap (then_with a b) ≡ then_with (swap a) (swap b)
swap-then_with a b = ground arith

pub then_with-eq : (a : Ordering) → then_with a eq ≡ a
then_with-eq a = ground arith

pub record IsTotal {ℓ} {A : Type ℓ} (cmp : A → A → Ordering) : Type ℓ where
  pub same : (a b : A) → cmp a b ≡ eq → a ≡ b
  pub self : (a : A) → cmp a a ≡ eq
  pub turn : (a b : A) → cmp b a ≡ swap (cmp a b)
  pub trans : (a b c : A) → cmp a b ≡ lt → cmp b c ≡ lt → cmp a c ≡ lt

pub compare-IsTotal : IsTotal compare
compare-IsTotal = ground arith

-- Through an injective key.
module _ {ℓ κ} {A : Type ℓ} {B : Type κ} (key : A → B) {cmp : B → B → Ordering} where
  pub on_key-IsTotal :
      ((a b : A) → key a ≡ key b → a ≡ b) → IsTotal cmp → IsTotal (λ a b. cmp (key a) (key b))
  on_key-IsTotal inj t = record {
    same = λ a b h. inj a b (t.same (key a) (key b) h);
    self = λ a. t.self (key a);
    turn = λ a b. t.turn (key a) (key b);
    trans = λ a b c. t.trans (key a) (key b) (key c);
  }

module _ {ℓ} {A : Type ℓ} {cmp : A → A → Ordering} where
  -- `other.cmp(self)`: the descending order.
  pub reversed-IsTotal : IsTotal cmp → IsTotal (λ a b. cmp b a)
  reversed-IsTotal t = record {
    same = λ a b h. sym (t.same b a h);
    self = t.self;
    turn = λ a b. t.turn b a;
    trans = λ a b c p q. t.trans c b a q p;
  }

-- Lexicographic on a pair, by `then_with`.
module _ {ℓ κ} {A : Type ℓ} {B : Type κ} (ca : A → A → Ordering) (cb : B → B → Ordering) where
  abbrev pub cmp_pair : A × B → A × B → Ordering
  cmp_pair x y = then_with (ca x.0 y.0) (cb x.1 y.1)

  pub cmp_pair-IsTotal : IsTotal ca → IsTotal cb → IsTotal cmp_pair
  cmp_pair-IsTotal s t = record {
    same = λ x y. ground (arith, s.same x.0 y.0, t.same x.1 y.1);
    self = λ x. ground (arith, s.self x.0, t.self x.1);
    turn = λ x y. ground (arith, s.turn x.0 y.0, t.turn x.1 y.1);
    trans = λ x y z.
        ground (arith, s.same x.0 y.0, s.same y.0 z.0, s.trans x.0 y.0 z.0, t.trans x.1 y.1 z.1);
  }

-- `<[T] as Ord>::cmp`: the first difference decides, and a prefix comes first.
module _ {ℓ} {A : Type ℓ} (cmp : A → A → Ordering) where
  unfoldable pub cmp_list : List A → List A → Ordering
  cmp_list [] [] = eq
  cmp_list [] (y ∷ ys) = lt
  cmp_list (x ∷ xs) [] = gt
  cmp_list (x ∷ xs) (y ∷ ys) = then_with (cmp x y) (cmp_list xs ys)

  module _ (t : IsTotal cmp) where
    cmp_list-same : (xs ys : List A) → cmp_list xs ys ≡ eq → xs ≡ ys
    unfolding cmp_list
    cmp_list-same [] [] h = refl
    cmp_list-same [] (y ∷ ys) h = ground arith
    cmp_list-same (x ∷ xs) [] h = ground arith
    cmp_list-same (x ∷ xs) (y ∷ ys) h = ground (arith, t.same x y, cmp_list-same xs ys)

    cmp_list_self : (xs : List A) → cmp_list xs xs ≡ eq
    unfolding cmp_list
    cmp_list_self [] = refl
    cmp_list_self (x ∷ xs) = ground (arith, t.self x, cmp_list_self xs)

    cmp_list-turn : (xs ys : List A) → cmp_list ys xs ≡ swap (cmp_list xs ys)
    unfolding cmp_list
    cmp_list-turn [] [] = refl
    cmp_list-turn [] (y ∷ ys) = refl
    cmp_list-turn (x ∷ xs) [] = refl
    cmp_list-turn (x ∷ xs) (y ∷ ys) = ground (arith, t.turn x y, cmp_list-turn xs ys)

    cmp_list_trans :
        (xs ys zs : List A) → cmp_list xs ys ≡ lt → cmp_list ys zs ≡ lt → cmp_list xs zs ≡ lt
    unfolding cmp_list
    cmp_list_trans [] [] zs p q = ground arith
    cmp_list_trans [] (y ∷ ys) [] p q = ground arith
    cmp_list_trans [] (y ∷ ys) (z ∷ zs) p q = refl
    cmp_list_trans (x ∷ xs) [] zs p q = ground arith
    cmp_list_trans (x ∷ xs) (y ∷ ys) [] p q = ground arith
    cmp_list_trans (x ∷ xs) (y ∷ ys) (z ∷ zs) p q =
        ground (arith, t.same x y, t.same y z, t.trans x y z, cmp_list_trans xs ys zs)

    pub cmp_list-IsTotal : IsTotal cmp_list
    cmp_list-IsTotal = record {
      same = cmp_list-same;
      self = cmp_list_self;
      turn = cmp_list-turn;
      trans = cmp_list_trans;
    }

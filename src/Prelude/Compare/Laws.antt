-- ===== src/Prelude/Compare/Laws.antt =====
-- The comparisons are total preorders, and so is a chain of them.
use Prim.Native.Nat.{ℕ}
use Prim.Native.String.{String}
use mathlib.Core.Path.{◌≡◌, refl}
use mathlib.Core.Bool.{false}
use mathlib.Core.Option.{Option, none, some}
use native.Mathlib.Omega.{arith}
use balu_todo.Prelude.Int.{ℤ, pos, ltb_ℤ}
use balu_todo.Prelude.Sort.Laws.{IsComparison}
use balu_todo.Prelude.Compare.{◌-ℤ◌, first_of, compare_ℕ, compare_text, compare_last}

-- A comparison whose sign is turned round with its arguments, and which is transitive.
pub record IsSigned {A : Type 0} (cmp : A → A → ℤ) : Type 0 where
  pub turned : (x y : A) → ltb_ℤ (cmp x y) (pos 0) ≡ ltb_ℤ (pos 0) (cmp y x)
  pub trans :
      (x y z : A)
      → ltb_ℤ (cmp y x) (pos 0) ≡ false
      → ltb_ℤ (cmp z y) (pos 0) ≡ false
      → ltb_ℤ (cmp z x) (pos 0) ≡ false

module _ {A : Type 0} where
  pub IsSigned-IsComparison : (cmp : A → A → ℤ) → IsSigned cmp → IsComparison cmp
  IsSigned-IsComparison cmp h = record {
    total = λ x y e. ground (arith, h.turned x y, h.turned y x);
    trans = h.trans;
  }

  pub difference-IsSigned : (key : A → ℤ) → IsSigned (λ x y. key x -ℤ key y)
  difference-IsSigned key = record {
    turned = λ x y. ground arith;
    trans = λ x y z p q. ground arith;
  }

  pub first_of-IsSigned :
      (c d : A → A → ℤ) → IsSigned c → IsSigned d → IsSigned (λ x y. first_of (c x y) (d x y))
  first_of-IsSigned c d g h = record {
    turned = λ x y. ground (arith, g.turned x y, g.turned y x, h.turned x y);
    trans = λ x y z p q. ground (
      arith,
      g.turned x y,
      g.turned y x,
      g.turned y z,
      g.turned z y,
      g.turned x z,
      g.turned z x,
      g.trans x y z,
      g.trans y z x,
      g.trans z x y,
      g.trans z y x,
      g.trans y x z,
      g.trans x z y,
      h.trans x y z,
    );
  }

  pub compare_ℕ-IsSigned : (key : A → ℕ) → IsSigned (λ x y. compare_ℕ (key x) (key y))
  compare_ℕ-IsSigned key = record {
    turned = λ x y. ground arith;
    trans = λ x y z p q. ground arith;
  }

compare_last-turned :
    (a b : Option ℕ) → ltb_ℤ (compare_last a b) (pos 0) ≡ ltb_ℤ (pos 0) (compare_last b a)
compare_last-turned none none = refl
compare_last-turned none (some b) = refl
compare_last-turned (some a) none = refl
compare_last-turned (some a) (some b) = ground arith

compare_last_trans :
    (a b c : Option ℕ)
    → ltb_ℤ (compare_last b a) (pos 0) ≡ false
    → ltb_ℤ (compare_last c b) (pos 0) ≡ false
    → ltb_ℤ (compare_last c a) (pos 0) ≡ false
compare_last_trans a b c p q = ground arith

compare_text-turned :
    (s t : String) → ltb_ℤ (compare_text s t) (pos 0) ≡ ltb_ℤ (pos 0) (compare_text t s)
unfolding compare_text
compare_text-turned String.[] String.[] = refl
compare_text-turned String.[] (String.◌∷◌ d t) = refl
compare_text-turned (String.◌∷◌ c s) String.[] = refl
compare_text-turned (String.◌∷◌ c s) (String.◌∷◌ d t) = ground (arith, compare_text-turned s t)

compare_text_trans :
    (a b c : String)
    → ltb_ℤ (compare_text b a) (pos 0) ≡ false
    → ltb_ℤ (compare_text c b) (pos 0) ≡ false
    → ltb_ℤ (compare_text c a) (pos 0) ≡ false
unfolding compare_text
compare_text_trans String.[] b String.[] p q = refl
compare_text_trans String.[] b (String.◌∷◌ z u) p q = refl
compare_text_trans (String.◌∷◌ x s) String.[] c p q = absurd (cc)
compare_text_trans (String.◌∷◌ x s) (String.◌∷◌ y t) String.[] p q = absurd (cc)
compare_text_trans (String.◌∷◌ x s) (String.◌∷◌ y t) (String.◌∷◌ z u) p q =
    ground (arith, compare_text_trans s t u)

module _ {A : Type 0} where
  pub compare_last-IsSigned : (key : A → Option ℕ) → IsSigned (λ x y. compare_last (key x) (key y))
  compare_last-IsSigned key = record {
    turned = λ x y. compare_last-turned (key x) (key y);
    trans = λ x y z. compare_last_trans (key x) (key y) (key z);
  }

  pub compare_text-IsSigned : (key : A → String) → IsSigned (λ x y. compare_text (key x) (key y))
  compare_text-IsSigned key = record {
    turned = λ x y. compare_text-turned (key x) (key y);
    trans = λ x y z. compare_text_trans (key x) (key y) (key z);
  }

  -- The other way round.
  pub turned-IsSigned : (cmp : A → A → ℤ) → IsSigned cmp → IsSigned (λ x y. cmp y x)
  turned-IsSigned cmp h = record {
    turned = λ x y. h.turned y x;
    trans = λ x y z p q. h.trans z y x q p;
  }

-- ===== src/Prelude/Compare/Orders.antt =====
-- What a chain of comparisons says of two elements of which the second does not go before the first.
use Prim.Native.Nat.{ℕ}
use Prim.Native.String.{String}
use Prim.Native.Char.{code}
use mathlib.Core.Path.{◌≡◌, refl}
use mathlib.Core.Bool.{Bool, true, false, ◌&&◌, ◌||◌}
use balu_todo.Prelude.{
  Option, none, some, ◌⊎◌, inl, inr, Bool-cases, List, [], ◌∷◌, All, All-weaken,
}
use balu_todo.Prelude.Sort.{goes_first}
use balu_todo.Prelude.Sort.Laws.{IsOrdered}
use native.Mathlib.Omega.{arith}
use balu_todo.Prelude.Int.{ℤ, pos, ltb_ℤ, eqb_ℤ, leb_ℤ}
use balu_todo.Prelude.Tests.{ltb, eqb, if◌then◌else◌}
use balu_todo.Prelude.Compare.{◌-ℤ◌, first_of, compare_text, compare_last}

-- `a` is less than `b`, or they are equal and `rest` holds.
abbrev pub IsLessOr : ℤ → ℤ → Type 0 → Type 0
IsLessOr a b rest = (ltb_ℤ a b ≡ true) ⊎ ((eqb_ℤ a b ≡ true) × rest)

-- `s` is first in the order of dictionaries, by the codes of the characters.
abbrev pub is_earlier : String → String → Bool
is_earlier s String.[] = false
is_earlier String.[] (String.◌∷◌ d t) = true
is_earlier (String.◌∷◌ c s) (String.◌∷◌ d t) =
    ltb (code c) (code d) || (eqb (code c) (code d) && is_earlier s t)

abbrev pub is_alike : String → String → Bool
is_alike String.[] String.[] = true
is_alike (String.◌∷◌ c s) (String.◌∷◌ d t) = eqb (code c) (code d) && is_alike s t
is_alike s t = false

abbrev pub IsEarlierOr : String → String → Type 0 → Type 0
IsEarlierOr s t rest = (is_earlier s t ≡ true) ⊎ ((is_alike s t ≡ true) × rest)

-- A difference that is not negative.
pub leb-difference : (a b : ℤ) → ltb_ℤ (b -ℤ a) (pos 0) ≡ false → leb_ℤ a b ≡ true
leb-difference a b h = ground arith

less-difference :
    (a b : ℤ) → ltb_ℤ (b -ℤ a) (pos 0) ≡ false → eqb_ℤ (b -ℤ a) (pos 0) ≡ false → ltb_ℤ a b ≡ true
less-difference a b h k = ground arith

equal-difference : (a b : ℤ) → eqb_ℤ (b -ℤ a) (pos 0) ≡ true → eqb_ℤ a b ≡ true
equal-difference a b h = ground arith

-- Of a chain: the first comparison decides, or the rest.
chain_splits :
    (f g : ℤ)
    → ltb_ℤ (first_of f g) (pos 0) ≡ false
    → ((ltb_ℤ f (pos 0) ≡ false) × (eqb_ℤ f (pos 0) ≡ false))
      ⊎ ((eqb_ℤ f (pos 0) ≡ true) × (ltb_ℤ g (pos 0) ≡ false))
chain_splits f g h = elim (Bool-cases (eqb_ℤ f (pos 0))) [
  | inl q ↦ inr (q, rw q at h)
  | inr q ↦ inl (rw q at h, q)
]

pub less_or :
    (a b r : ℤ) (P : Type 0)
    → ltb_ℤ (first_of (b -ℤ a) r) (pos 0) ≡ false
    → (ltb_ℤ r (pos 0) ≡ false → P)
    → IsLessOr a b P
less_or a b r P h later = elim (chain_splits (b -ℤ a) r h) [
  | inl (n, z) ↦ inl (less-difference a b n z)
  | inr (z, n) ↦ inr (equal-difference a b z, later n)
]

-- A comparison of texts tells them apart.
text_order :
    (s t : String)
    → ltb_ℤ (compare_text t s) (pos 0) ≡ false
    → (is_earlier s t ≡ true) ⊎ (is_alike s t ≡ true)
unfolding compare_text
text_order String.[] String.[] h = inr refl
text_order String.[] (String.◌∷◌ d t) h = inl refl
text_order (String.◌∷◌ c s) String.[] h = cc
text_order (String.◌∷◌ c s) (String.◌∷◌ d t) h = ground (arith, text_order s t)

text_equal : (s t : String) → eqb_ℤ (compare_text t s) (pos 0) ≡ is_alike s t
unfolding compare_text
text_equal String.[] String.[] = refl
text_equal String.[] (String.◌∷◌ d t) = refl
text_equal (String.◌∷◌ c s) String.[] = refl
text_equal (String.◌∷◌ c s) (String.◌∷◌ d t) = ground (arith, text_equal s t)

pub earlier_or :
    (s t : String) (r : ℤ) (P : Type 0)
    → ltb_ℤ (first_of (compare_text t s) r) (pos 0) ≡ false
    → (ltb_ℤ r (pos 0) ≡ false → P)
    → IsEarlierOr s t P
earlier_or s t r P h later = elim (chain_splits (compare_text t s) r h) [
  | inl (n, z) ↦ ground (arith, text_order s t n, text_equal s t, z)
  | inr (z, n) ↦ inr (ground (arith, text_equal s t, z), later n)
]

pub earlier_alone :
    (s t : String) → ltb_ℤ (compare_text t s) (pos 0) ≡ false → IsEarlierOr s t (Unit {0})
earlier_alone s t h = ground (arith, text_order s t h)

-- Of any two elements, the first and the second in a list.
module _ {A : Type 0} (P : A → A → Type 0) where
  abbrev pub IsPairwise : List A → Type 0
  IsPairwise [] = Unit
  IsPairwise (x ∷ xs) = All (P x) xs × IsPairwise xs

  pub IsPairwise-IsOrdered :
      (cmp : A → A → ℤ)
      → ((x y : A) → goes_first cmp y x ≡ false → P x y)
      → (xs : List A) → IsOrdered cmp xs
      → IsPairwise xs
  IsPairwise-IsOrdered cmp h [] o = tt
  IsPairwise-IsOrdered cmp h (x ∷ xs) (f, o) =
      (All-weaken (h x) xs f, IsPairwise-IsOrdered cmp h xs o)

-- Of two dates the first is there and the second is not, or is later; or they are the same, or both
-- missing, and `rest` holds.
abbrev pub IsSoonerOr : Option ℕ → Option ℕ → Type 0 → Type 0
IsSoonerOr none none rest = rest
IsSoonerOr none (some b) rest = false ≡ true
IsSoonerOr (some a) none rest = Unit
IsSoonerOr (some a) (some b) rest = IsLessOr (pos a) (pos b) rest

pub sooner_or :
    (a b : Option ℕ) (r : ℤ) (P : Type 0)
    → ltb_ℤ (first_of (compare_last b a) r) (pos 0) ≡ false
    → (ltb_ℤ r (pos 0) ≡ false → P)
    → IsSoonerOr a b P
sooner_or none none r P h later = later h
sooner_or none (some b) r P h later = cc
sooner_or (some a) none r P h later = tt
sooner_or (some a) (some b) r P h later = elim (chain_splits (compare_last (some b) (some a)) r h) [
  | inl (n, z) ↦ inl (ground arith)
  | inr (z, n) ↦ inr (ground arith, later n)
]

-- The first has it and the second has not; or both or neither, and `rest` holds.
abbrev pub IsFirstOr : Bool → Bool → Type 0 → Type 0
IsFirstOr true true rest = rest
IsFirstOr true false rest = Unit
IsFirstOr false true rest = false ≡ true
IsFirstOr false false rest = rest

-- Numbers that stand for a test: 0 where it holds, and 1 where not.
pub IsFirstOr-tested :
    (p q : Bool) (a b : ℕ) (P : Type 0)
    → a ≡ (if p then 0 else 1)
    → b ≡ (if q then 0 else 1)
    → IsLessOr (pos a) (pos b) P
    → IsFirstOr p q P
IsFirstOr-tested true true a b P e f (inl l) = ground (arith, e, f, l)
IsFirstOr-tested true true a b P e f (inr (l, r)) = r
IsFirstOr-tested true false a b P e f l = tt
IsFirstOr-tested false true a b P e f (inl l) = ground (arith, e, f, l)
IsFirstOr-tested false true a b P e f (inr (l, r)) = ground (arith, e, f, l)
IsFirstOr-tested false false a b P e f (inl l) = ground (arith, e, f, l)
IsFirstOr-tested false false a b P e f (inr (l, r)) = r

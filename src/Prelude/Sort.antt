-- ===== src/Prelude/Sort.antt =====
-- `Array.prototype.sort`: the stable sort by a comparison, which is negative where its first argument
-- goes first.
pub mod Laws
use mathlib.Core.List.{List, [], ◌∷◌}
use mathlib.Core.Bool.{Bool}
use balu_todo.Prelude.Tests.{if◌then◌else◌}
use balu_todo.Prelude.Int.{ℤ, pos, ltb_ℤ}

module _ {A : Type 0} (cmp : A → A → ℤ) where
  -- `y` goes before `x`.
  abbrev pub goes_first : A → A → Bool
  goes_first y x = ltb_ℤ (cmp y x) (pos 0)

  unfoldable pub insert : A → List A → List A
  insert x [] = x ∷ []
  insert x (y ∷ ys) = let later = insert x ys in if goes_first y x then y ∷ later else x ∷ y ∷ ys

  unfoldable pub sort : List A → List A
  unfolding insert
  sort [] = []
  sort (x ∷ xs) = insert x (sort xs)

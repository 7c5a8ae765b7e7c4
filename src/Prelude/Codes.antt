-- ===== src/Prelude/Codes.antt =====
-- Texts as lists of code points: comparison with a constant and `String.prototype.split`.
use Prim.Native.String.{String}
use Prim.Native.Char.{code}
use Prim.Native.Nat.{ℕ}
use mathlib.Core.Bool.{Bool, true, false, ◌&&◌}
use mathlib.Core.List.{List, [], ◌∷◌, ◌++◌}
use balu_todo.Prelude.Tests.{eqb, if◌then◌else◌}

abbrev pub codes : String → List ℕ
codes String.[] = []
codes (String.◌∷◌ c s) = code c ∷ codes s

unfoldable pub eq_codes : List ℕ → List ℕ → Bool
eq_codes [] [] = true
eq_codes (x ∷ xs) (y ∷ ys) = eqb x y && eq_codes xs ys
eq_codes xs ys = false

abbrev pub is : List ℕ → String → Bool
is v s = eq_codes v (codes s)

-- The first part and the rest of a `split` that has a part in hand.
unfoldable pub split_from : ℕ → List ℕ → List ℕ → List (List ℕ)
split_from sep part [] = part ∷ []
split_from sep part (c ∷ s) =
    let closed = part ∷ split_from sep [] s in
    let longer = split_from sep (part ++ c ∷ []) s in if eqb c sep then closed else longer

unfoldable pub split : ℕ → List ℕ → List (List ℕ)
unfolding split_from
split sep s = split_from sep [] s

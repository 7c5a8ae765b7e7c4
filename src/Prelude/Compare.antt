-- ===== src/Prelude/Compare.antt =====
-- Comparisons as JavaScript writes them: differences, chains by `||`, and `<` on texts, which orders
-- them by their codes.
pub mod Laws
pub mod Orders
use Prim.Native.String.{String}
use Prim.Native.Char.{code}
use mathlib.Core.Bool.{Bool, true, false}
use mathlib.Core.Option.{Option, none, some}
use balu_todo.Prelude.Tests.{ltb, if◌then◌else◌}
use balu_todo.Prelude.Int.{ℤ, pos, negsuc, pos_part, neg_part, sub_ℕ, eqb_ℤ}
use Prim.Native.Nat.{ℕ, ◌+◌}

infixl 65 ◌-ℤ◌
abbrev pub ◌-ℤ◌ : ℤ → ℤ → ℤ
a -ℤ b = sub_ℕ (pos_part a + neg_part b) (neg_part a + pos_part b)

-- `a || b`
abbrev pub first_of : ℤ → ℤ → ℤ
first_of a b = if eqb_ℤ a (pos 0) then b else a

-- `a < b ? -1 : a > b ? 1 : 0`
abbrev pub compare_ℕ : ℕ → ℕ → ℤ
compare_ℕ a b = if ltb a b then negsuc 0 else if ltb b a then pos 1 else pos 0

unfoldable pub compare_text : String → String → ℤ
compare_text String.[] String.[] = pos 0
compare_text String.[] (String.◌∷◌ d t) = negsuc 0
compare_text (String.◌∷◌ c s) String.[] = pos 1
compare_text (String.◌∷◌ c s) (String.◌∷◌ d t) =
    let later = compare_text s t in
    if ltb (code c) (code d) then negsuc 0 else if ltb (code d) (code c) then pos 1 else later

-- Dates that may be missing, the missing ones last.
abbrev pub compare_last : Option ℕ → Option ℕ → ℤ
compare_last none none = pos 0
compare_last none (some b) = pos 1
compare_last (some a) none = negsuc 0
compare_last (some a) (some b) = compare_ℕ a b

-- ===== src/Domain/Order.antt =====
-- packages/domain/src/helpers.ts: positions within a container.
-- `sort_order` is an integer, as the server's column is.
pub mod Append
use balu_todo.Prelude.{
  ℕ, ◌+◌, ◌*◌, String, Bool, false, not, Option, none, some, List, [], ◌∷◌, ◌==◌, filter,
  if◌then◌else◌,
}
use balu_todo.Prelude.Int.{ℤ, pos, ◌+ℤ◌, ltb_ℤ, eqb_ℤ}
use balu_todo.Domain.Types.{Placement}

-- The loop of `nextSortOrder`; `none` is -Infinity.
unfoldable pub max_order : Option ℤ → List ℤ → Option ℤ
max_order best [] = best
max_order none (x ∷ xs) = max_order (some x) xs
max_order (some m) (x ∷ xs) = max_order (some (if ltb_ℤ m x then x else m)) xs

abbrev after_max : Option ℤ → ℤ
after_max none = pos 1000
after_max (some m) = m +ℤ pos 1000

-- nextSortOrder, over the positions of the siblings
unfoldable pub next_sort_order : List ℤ → ℤ
unfolding max_order
next_sort_order siblings = after_max (max_order none siblings)

abbrev step : ℕ
step = 1000

-- The `map` of `spacedOrders`, from the index `i` on.
spaced_from : ℕ → List String → List Placement
spaced_from i [] = []
spaced_from i (id ∷ ids) =
    record { id = id; sort_order = pos ((i + 1) * step) } ∷ spaced_from (i + 1) ids

unfoldable pub spaced_orders : List String → List Placement
unfolding spaced_from
spaced_orders ids = spaced_from 0 ids

-- `new Map(items)` and its `get`: of two items with one id the last one counts.
current : List Placement → String → Option ℤ
current [] k = none
current (it ∷ items) k =
    let later = current items k in
    elim later [ some o ↦ some o | none ↦ if it.id == k then some it.sort_order else none ]

-- `current.get(u.id) !== u.sort_order`
moved : Option ℤ → ℤ → Bool
moved none o = not false
moved (some p) o = not (eqb_ℤ p o)

unfoldable pub reorder_updates : List Placement → List String → List Placement
unfolding spaced_orders current moved
reorder_updates items ids =
    filter (λ u. moved (current items u.id) u.sort_order) (spaced_orders ids)

-- ===== src/Domain/Order/Append.antt =====
-- `nextSortOrder` of packages/domain/src/helpers.ts, against the positions of the siblings.
use mathlib.Core.Path.{subst}
use balu_todo.Prelude.{◌≡◌, sym, refl, true, some, List, [], ◌∷◌, arith, All, if◌then◌else◌}
use balu_todo.Prelude.Int.{ℤ, pos, ◌+ℤ◌, ltb_ℤ, leb_ℤ}
use balu_todo.Domain.Order.{max_order, after_max, next_sort_order}

-- The position `m` is at least as large as each of the list.
abbrev IsUpper : ℤ → List ℤ → Type 0
IsUpper m xs = All (λ x. leb_ℤ x m ≡ true) xs

max_order-some :
    (best : ℤ) (xs : List ℤ)
    → (m : ℤ) × (max_order (some best) xs ≡ some m) × (leb_ℤ best m ≡ true) × IsUpper m xs
unfolding max_order
max_order-some best [] = (best, refl, ground arith, tt)
max_order-some best (x ∷ xs) =
    let (m, e, above, upper) = max_order-some (if ltb_ℤ best x then x else best) xs in
    (m, e, ground (arith, above), (ground (arith, above), upper))

All-before :
    (m : ℤ) (next : ℤ) (xs : List ℤ)
    → ((x : ℤ) → leb_ℤ x m ≡ true → ltb_ℤ x next ≡ true)
    → IsUpper m xs
    → All (λ x. ltb_ℤ x next ≡ true) xs
All-before m next [] f h = tt
All-before m next (x ∷ xs) f (p, h) = (f x p, All-before m next xs f h)

-- The next position is after each of the siblings'.
pub next_sort_order-above : (xs : List ℤ) → All (λ x. ltb_ℤ x (next_sort_order xs) ≡ true) xs
unfolding next_sort_order
next_sort_order-above [] = tt
next_sort_order-above (x ∷ xs) =
    let (m, e, above, upper) = max_order-some x xs in
    subst (λ o. All (λ y. ltb_ℤ y (after_max o) ≡ true) (x ∷ xs)) (sym e)
      (All-before m (m +ℤ pos 1000) (x ∷ xs) (λ y p. ground (arith, p)) (above, upper))

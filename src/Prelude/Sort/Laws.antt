-- ===== src/Prelude/Sort/Laws.antt =====
-- The result of the sort is in order, has the elements of its input, and keeps the order of those that
-- the comparison does not tell apart.
use mathlib.Core.List.{List, [], ◌∷◌, Perm}
use mathlib.Core.List.Perm
use mathlib.Core.Bool.{Bool, true, false}
use mathlib.Core.Path.{◌≡◌, refl, ◌∙◌, ap}
use mathlib.Core.Logic.{inl, inr}
use native.Mathlib.Omega.{arith}
use balu_todo.Prelude.Tests.{if◌then◌else◌, Bool-cases}
use balu_todo.Prelude.Lists.{All, filter}
use balu_todo.Prelude.Int.{ℤ}
use balu_todo.Prelude.Sort.{goes_first, insert, sort}

-- A comparison that a sort can follow: whatever does not go first is a total preorder.
pub record IsComparison {A : Type 0} (cmp : A → A → ℤ) : Type 0 where
  pub total : (x y : A) → goes_first cmp y x ≡ true → goes_first cmp x y ≡ false
  pub trans :
      (x y z : A)
      → goes_first cmp y x ≡ false
      → goes_first cmp z y ≡ false
      → goes_first cmp z x ≡ false

module _ {A : Type 0} (cmp : A → A → ℤ) where
  -- Nothing of the list goes before `x`.
  abbrev pub IsFirst : A → List A → Type 0
  IsFirst x ys = All (λ y. goes_first cmp y x ≡ false) ys

  abbrev pub IsOrdered : List A → Type 0
  IsOrdered [] = Unit
  IsOrdered (x ∷ xs) = IsFirst x xs × IsOrdered xs

  pub insert-perm : (x : A) (ys : List A) → Perm (insert cmp x ys) (x ∷ ys)
  unfolding insert
  insert-perm x [] = Perm.rfl
  insert-perm x (y ∷ ys) = elim (Bool-cases (goes_first cmp y x)) [
    | inl e ↦ rw e (Perm.trans (Perm.cons y (insert-perm x ys)) (Perm.swap x y ys))
    | inr e ↦ rw e Perm.rfl
  ]

  pub sort-perm : (xs : List A) → Perm (sort cmp xs) xs
  unfolding sort
  sort-perm [] = Perm.rfl
  sort-perm (x ∷ xs) = Perm.trans (insert-perm x (sort cmp xs)) (Perm.cons x (sort-perm xs))

  module _ (P : A → Type 0) where
    All-insert : (x : A) (ys : List A) → P x → All P ys → All P (insert cmp x ys)
    unfolding insert
    All-insert x [] p h = (p, tt)
    All-insert x (y ∷ ys) p (q, h) = elim (Bool-cases (goes_first cmp y x)) [
      | inl e ↦ rw e (q, All-insert x ys p h)
      | inr e ↦ rw e (p, (q, h))
    ]

    pub All-sort : (xs : List A) → All P xs → All P (sort cmp xs)
    unfolding sort
    All-sort [] h = tt
    All-sort (x ∷ xs) (p, h) = All-insert x (sort cmp xs) p (All-sort xs h)

    insert-All : (x : A) (ys : List A) → All P (insert cmp x ys) → P x × All P ys
    unfolding insert
    insert-All x [] h = h
    insert-All x (y ∷ ys) h = elim (Bool-cases (goes_first cmp y x)) [
      | inl e ↦ let h' = rw e at h in let (p, r) = insert-All x ys h'.1 in (p, (h'.0, r))
      | inr e ↦ rw e at h
    ]

    pub sort-All : (xs : List A) → All P (sort cmp xs) → All P xs
    unfolding sort
    sort-All [] h = tt
    sort-All (x ∷ xs) h = let (p, r) = insert-All x (sort cmp xs) h in (p, sort-All xs r)

  insert-IsFirst : (x : A) (ys : List A) → IsFirst x ys → insert cmp x ys ≡ x ∷ ys
  unfolding insert
  insert-IsFirst x [] h = refl
  insert-IsFirst x (y ∷ ys) (p, h) = rw p

  -- A list in order is its own sort.
  pub sort-IsOrdered_id : (xs : List A) → IsOrdered xs → sort cmp xs ≡ xs
  unfolding sort
  sort-IsOrdered_id [] o = refl
  sort-IsOrdered_id (x ∷ xs) (f, o) = rw (sort-IsOrdered_id xs o) (insert-IsFirst x xs f)

  module _ (c : IsComparison cmp) where
    IsFirst-trans :
        (x y : A) (zs : List A) → goes_first cmp y x ≡ false → IsFirst y zs → IsFirst x zs
    IsFirst-trans x y [] e h = tt
    IsFirst-trans x y (z ∷ zs) e (p, h) = (c.trans x y z e p, IsFirst-trans x y zs e h)

    IsFirst-insert :
        (y x : A) (ys : List A)
        → goes_first cmp x y ≡ false
        → IsFirst y ys
        → IsFirst y (insert cmp x ys)
    unfolding insert
    IsFirst-insert y x [] e h = (e, tt)
    IsFirst-insert y x (z ∷ ys) e (p, h) = elim (Bool-cases (goes_first cmp z x)) [
      | inl q ↦ rw q (p, IsFirst-insert y x ys e h)
      | inr q ↦ rw q (e, (p, h))
    ]

    insert-IsOrdered : (x : A) (ys : List A) → IsOrdered ys → IsOrdered (insert cmp x ys)
    unfolding insert
    insert-IsOrdered x [] h = (tt, tt)
    insert-IsOrdered x (y ∷ ys) (p, h) = elim (Bool-cases (goes_first cmp y x)) [
      | inl q ↦ rw q (IsFirst-insert y x ys (c.total x y q) p, insert-IsOrdered x ys h)
      | inr q ↦ rw q ((q, IsFirst-trans x y ys q p), (p, h))
    ]

    pub sort-IsOrdered : (xs : List A) → IsOrdered (sort cmp xs)
    unfolding sort
    sort-IsOrdered [] = tt
    sort-IsOrdered (x ∷ xs) = insert-IsOrdered x (sort cmp xs) (sort-IsOrdered xs)

  -- Elements of which none goes before another.
  module _ (p : A → Bool)
      (alike : (x y : A) → p x ≡ true → p y ≡ true → goes_first cmp x y ≡ false) where
    filter-insert : (x : A) (ys : List A) → filter p (insert cmp x ys) ≡ filter p (x ∷ ys)
    unfolding insert
    filter-insert x [] = refl
    filter-insert x (y ∷ ys) = elim (Bool-cases (goes_first cmp y x)) [
      | inl q ↦ rw q (ground (arith, filter-insert x ys, alike y x, q))
      | inr q ↦ rw q
    ]

    pub filter-sort : (xs : List A) → filter p (sort cmp xs) ≡ filter p xs
    unfolding sort
    filter-sort [] = refl
    filter-sort (x ∷ xs) =
        filter-insert x (sort cmp xs) ∙ ap (λ l. if p x then x ∷ l else l) (filter-sort xs)

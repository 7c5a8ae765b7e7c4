-- ===== src/Domain/Memberships/Picked.antt =====
-- The choice of packages/domain/src/memberships.ts.
use mathlib.Core.Path.{subst}
use balu_todo.Prelude.{
  eq_refl, String, ◌≡◌, refl, ap, sym, Bool, true, false, Bool-cases, inl, inr, ◌||◌, ◌==◌, eq_iff,
  arith, Option, none, some, List, [], ◌∷◌, or_else, or_maybe, truthy,
}
use balu_todo.Domain.Memberships.{
  Membership, find_membership, wanted, first_membership, pick_membership,
}

-- The user belongs to the workspace.
abbrev pub belongs : String → List Membership → Bool
belongs id [] = false
belongs id (m ∷ ms) = m.workspace.id == id || belongs id ms

some_injective : {A : Type 0} (x y : A) → some x ≡ some y → x ≡ y
some_injective x y e = ap (λ o. or_else o x) e

-- What is picked among the memberships.
pub record IsPicked (ms : List Membership) (preferred last_used : Option String)
    (o : Option Membership) : Type 0 where
  pub theirs : (m : Membership) → o ≡ some m → belongs m.workspace.id ms ≡ true
  pub preferred_first :
      (id : String)
      → truthy preferred ≡ some id
      → belongs id ms ≡ true
      → (m : Membership) × (o ≡ some m) × (m.workspace.id ≡ id)
  pub last_used_next :
      (id : String)
      → wanted (truthy preferred) ms ≡ none
      → truthy last_used ≡ some id
      → belongs id ms ≡ true
      → (m : Membership) × (o ≡ some m) × (m.workspace.id ≡ id)
  pub none_only : o ≡ none → ms ≡ []

found :
    (id : String) (ms : List Membership)
    → belongs id ms ≡ true
    → (m : Membership) × (find_membership id ms ≡ some m) × (m.workspace.id ≡ id)
unfolding find_membership
found id [] h = cc
found id (m ∷ ms) h = elim (Bool-cases (m.workspace.id == id)) [
  | inl q ↦ (m, rw q refl, (eq_iff m.workspace.id id).0 q)
  | inr q ↦ let (x, e, i) = found id ms (rw q at h) in (x, rw q e, i)
]

belongs-find_membership :
    (id : String) (ms : List Membership) (m : Membership)
    → find_membership id ms ≡ some m
    → belongs m.workspace.id ms ≡ true
unfolding find_membership
belongs-find_membership id [] m e = cc
belongs-find_membership id (x ∷ ms) m e = elim (Bool-cases (x.workspace.id == id)) [
  | inl q ↦
      let here : some x ≡ some m = rw q at e in
      let it : x ≡ m = some_injective x m here in
      subst (λ (y : Membership). belongs y.workspace.id (x ∷ ms) ≡ true) it
        (ground (arith, eq_refl x.workspace.id))
  | inr q ↦ ground (arith, belongs-find_membership id ms m (rw q at e))
]

belongs-wanted :
    (o : Option String) (ms : List Membership) (m : Membership)
    → wanted o ms ≡ some m
    → belongs m.workspace.id ms ≡ true
belongs-wanted none ms m e = cc
belongs-wanted (some id) ms m e = belongs-find_membership id ms m e

belongs-first_membership :
    (ms : List Membership) (m : Membership)
    → first_membership ms ≡ some m
    → belongs m.workspace.id ms ≡ true
belongs-first_membership [] m e = cc
belongs-first_membership (x ∷ ms) m e =
    subst (λ (y : Membership). belongs y.workspace.id (x ∷ ms) ≡ true) (some_injective x m e)
      (ground (arith, eq_refl x.workspace.id))

-- The result of `a ?? b` is one of the two.
either :
    {P : Membership → Type 0} (a b : Option Membership)
    → ((m : Membership) → a ≡ some m → P m)
    → ((m : Membership) → b ≡ some m → P m)
    → (m : Membership) → or_maybe a b ≡ some m
    → P m
either none b f g m e = g m e
either (some x) b f g m e = f m e

no_first :
    (a b : Option Membership) (ms : List Membership)
    → or_maybe a (or_maybe b (first_membership ms)) ≡ none
    → ms ≡ []
no_first none none [] e = refl
no_first none none (m ∷ ms) e = cc
no_first none (some x) ms e = cc
no_first (some x) b ms e = cc

wanted-found :
    (o : Option String) (id : String) (ms : List Membership)
    → o ≡ some id
    → belongs id ms ≡ true
    → (m : Membership) × (wanted o ms ≡ some m) × (m.workspace.id ≡ id)
wanted-found none id ms e h = cc
wanted-found (some k) id ms e h =
    let same_id : k ≡ id = some_injective k id e in
    subst (λ i. (m : Membership) × (wanted (some k) ms ≡ some m) × (m.workspace.id ≡ i)) same_id
      (found k ms (subst (λ i. belongs i ms ≡ true) (sym same_id) h))

-- What is picked is a workspace of the user's: the preferred one if it is theirs, else the last used one
-- if that is; and something is picked if they have one.
pub pick_membership-IsPicked :
    (ms : List Membership) (preferred last_used : Option String)
    → IsPicked ms preferred last_used (pick_membership ms preferred last_used)
unfolding pick_membership
pick_membership-IsPicked ms preferred last_used = record {
  theirs =
      either (wanted (truthy preferred) ms)
        (or_maybe (wanted (truthy last_used) ms) (first_membership ms))
        (belongs-wanted (truthy preferred) ms)
        (either (wanted (truthy last_used) ms) (first_membership ms)
          (belongs-wanted (truthy last_used) ms) (belongs-first_membership ms));
  preferred_first =
      λ id e h. let (m, w, i) = wanted-found (truthy preferred) id ms e h in (m, rw w refl, i);
  last_used_next = λ id n e h.
      let (m, w, i) = wanted-found (truthy last_used) id ms e h in (m, rw (n, w) refl, i);
  none_only = no_first (wanted (truthy preferred) ms) (wanted (truthy last_used) ms) ms;
}

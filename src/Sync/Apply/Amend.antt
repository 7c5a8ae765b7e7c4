-- ===== src/Sync/Apply/Amend.antt =====
-- `amend`, `remove` and the loops over a map: entries, keys and ids.
use mathlib.Core.Option
use mathlib.Core.Option.{some-injective}
use mathlib.Core.Path.{subst}
use balu_todo.Prelude.{
  String, ◌≡◌, sym, ap, ◌∙◌, none, some, [], ◌∷◌, ◌==◌, eq_iff, if◌then◌else◌, Option-cases,
  Bool-cases, inl, inr,
}
use balu_todo.Dict.{Dict, get, set}
use balu_todo.Dict.Laws.{get-set}
use balu_todo.Domain.Types.{Synced}
use balu_todo.Sync.Replica.Stored.{IsKeyed, IsKeyed-set}
use balu_todo.Sync.Apply.Objects.{amend}

module _ {ℓ} {A : Type ℓ} where
  amend-none : (k : String) (f : A → A) (m : Dict A) → get k m ≡ none → amend k f m ≡ m
  unfolding amend
  amend-none k f m e = rw (e, amend)

  amend-some :
      (k : String) (f : A → A) (m : Dict A) (x : A) → get k m ≡ some x → amend k f m ≡ set k (f x) m
  unfolding amend
  amend-some k f m x e = rw (e, amend)

  pub get-amend :
      (j k : String) (f : A → A) (m : Dict A)
      → get j (amend k f m) ≡ (if k == j then Option.map f (get j m) else get j m)
  get-amend j k f m = elim (Option-cases (get k m)) [
    | inl e ↦
        rw (amend-none k f m e)
          (elim (Bool-cases (k == j)) [ inl q ↦ rw q (rw (← (eq_iff k j).0 q, e)) | inr q ↦ rw q ])
    | inr (x, e) ↦
        rw (amend-some k f m x e, get-set)
          (elim (Bool-cases (k == j)) [ inl q ↦ rw q (rw (← (eq_iff k j).0 q, e)) | inr q ↦ rw q ])
  ]

module _ {A : Type 0} ⦃s : Synced A⦄ where
  pub id_of_get :
      (k : String) (m : Dict A) (x : A) → IsKeyed m → get k m ≡ some x → (s.base x).id ≡ k
  unfolding get
  id_of_get k [] x h e = cc
  id_of_get k ((j, y) ∷ m) x (p, f, h) e = elim (Bool-cases (j == k)) [
    | inl q ↦
        let same : some y ≡ some x = rw q at e in
        let inj : x ≡ y = cc in ap (λ z. (s.base z).id) inj ∙ sym p ∙ (eq_iff j k).0 q
    | inr q ↦ id_of_get k m x h (rw q at e)
  ]

  pub IsKeyed-amend :
      (k : String) (f : A → A) (m : Dict A)
      → ((x : A) → (s.base (f x)).id ≡ (s.base x).id)
      → IsKeyed m
      → IsKeyed (amend k f m)
  IsKeyed-amend k f m keep h = elim (Option-cases (get k m)) [
    | inl e ↦ subst IsKeyed (sym (amend-none k f m e)) h
    | inr (x, e) ↦
        subst IsKeyed (sym (amend-some k f m x e))
          (IsKeyed-set k (f x) m (sym (keep x ∙ id_of_get k m x h e)) h)
  ]

-- ===== src/Parser/Compose/Matching.antt =====
-- The projects and labels that the tokens of packages/nl-parser/src/compose.ts match.
use mathlib.Core.Path.{subst}
use balu_todo.Prelude.{
  ◌≡◌, inl, inr, refl, Bool, true, false, not, ◌&&◌, ◌||◌, String, ◌==◌, eq_refl, Option, none,
  some, List, [], ◌∷◌, All, All-append, arith, is_some, truthy, Bool-cases,
}
use balu_todo.Parser.Types.{Span, Token, Meaning, project, label}
use balu_todo.Parser.Compose.{
  NamedEntity, Runtime, Matched, match_by_name, file_under, add_label, match_token, match_tokens,
}

-- Some live entity has the id.
abbrev pub is_live : String → List NamedEntity → Bool
is_live id [] = false
is_live id (i ∷ items) = (not i.is_deleted && i.id == id) || is_live id items

or_true : (b : Bool) → (b || true) ≡ true
or_true true = refl
or_true false = refl

is_live-match_by_name :
    (env : Runtime) (items : List NamedEntity) (q : String) (i : NamedEntity)
    → match_by_name env items q ≡ some i
    → is_live i.id items ≡ true
unfolding match_by_name
is_live-match_by_name env [] q i e = cc
is_live-match_by_name env (x ∷ items) q i e =
    elim (Bool-cases (not x.is_deleted && env.lower x.name == env.lower q)) [
      | inl h ↦
          let found : some x ≡ some i = rw h at e in
          let same_one : x ≡ i = cc in
          subst (λ (y : NamedEntity). is_live y.id (x ∷ items) ≡ true) same_one
            (ground (arith, h, eq_refl x.id))
      | inr h ↦
          let later : match_by_name env items q ≡ some i = rw h at e in
          rw (is_live-match_by_name env items q i later) (or_true _)
    ]

-- What is matched is alive.
pub record IsLive (projects labels : List NamedEntity) (m : Matched) : Type 0 where
  pub filed : (p : String) → m.project_id ≡ some p → is_live p projects ≡ true
  pub labelled : All (λ id. is_live id labels ≡ true) m.label_ids

module _ (env : Runtime) (projects labels : List NamedEntity) where
  IsLive-file_under :
      (o : Option NamedEntity) (span : Span) (m : Matched)
      → ((i : NamedEntity) → o ≡ some i → is_live i.id projects ≡ true)
      → IsLive projects labels m
      → IsLive projects labels (file_under env o span m)
  IsLive-file_under none span m live h = h
  IsLive-file_under (some i) span m live h = record {
    filed = λ p e. elim (Bool-cases (is_some (truthy m.project_id))) [
      | inl q ↦ h.filed p (rw q at e)
      | inr q ↦
          let mine : some i.id ≡ some p = rw q at e in
          let id : i.id ≡ p = cc in subst (λ k. is_live k projects ≡ true) id (live i refl)
    ];
    labelled = h.labelled;
  }

  IsLive-add_label :
      (o : Option NamedEntity) (span : Span) (m : Matched)
      → ((i : NamedEntity) → o ≡ some i → is_live i.id labels ≡ true)
      → IsLive projects labels m
      → IsLive projects labels (add_label env o span m)
  IsLive-add_label none span m live h = h
  IsLive-add_label (some i) span m live h = record {
    filed = h.filed;
    labelled =
        All-append (λ id. is_live id labels ≡ true) m.label_ids (i.id ∷ []) h.labelled
          (live i refl, tt);
  }

  IsLive-match_token :
      (meaning : Meaning) (span : Span) (m : Matched)
      → IsLive projects labels m
      → IsLive projects labels (match_token env projects labels meaning span m)
  IsLive-match_token (project q) span m h =
      IsLive-file_under (match_by_name env projects q) span m (is_live-match_by_name env projects q)
        h
  IsLive-match_token (label q) span m h =
      IsLive-add_label (match_by_name env labels q) span m (is_live-match_by_name env labels q) h
  IsLive-match_token _ span m h = record { filed = h.filed; labelled = h.labelled }

  pub IsLive-match_tokens :
      (m : Matched) (toks : List Token)
      → IsLive projects labels m
      → IsLive projects labels (match_tokens env projects labels m toks)
  unfolding match_tokens
  IsLive-match_tokens m [] h = h
  IsLive-match_tokens m (tok ∷ toks) h =
      IsLive-match_tokens (match_token env projects labels tok.meaning tok.span m) toks
        (IsLive-match_token tok.meaning tok.span m h)

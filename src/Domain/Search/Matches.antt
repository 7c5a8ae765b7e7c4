-- ===== src/Domain/Search/Matches.antt =====
-- Which texts packages/domain/src/search.ts finds.
use balu_todo.Prelude.{
  ℕ, zero, suc, ◌+◌, ◌≡◌, refl, sym, ◌∙◌, Bool, true, false, ◌&&◌, ◌||◌, Bool-cases, inl, inr,
  Option, none, some, List, [], ◌∷◌, length, arith, eqb, is_some, if◌then◌else◌,
}
use balu_todo.Prelude.Int.{ℤ, pos, negsuc, ltb_ℤ}
use balu_todo.Prelude.Codes.{eq_codes}
use balu_todo.Domain.Search.{
  match_units, compactness, subsequence_score, starts_with, index_from, score_at, score_units,
}

-- The units of the query are in the text, in their order, with any others between them.
abbrev pub is_within : List ℕ → List ℕ → Bool
is_within [] text = true
is_within (c ∷ query) [] = false
is_within (c ∷ query) (d ∷ text) = (eqb d c && is_within query text) || is_within (c ∷ query) text

is_within_shorter :
    (c : ℕ) (query text : List ℕ) → is_within (c ∷ query) text ≡ true → is_within query text ≡ true
is_within_shorter c [] text h = refl
is_within_shorter c (e ∷ query) [] h = cc
is_within_shorter c (e ∷ query) (d ∷ text) h = elim (Bool-cases (is_within (c ∷ e ∷ query) text)) [
  | inl q ↦ ground (arith, is_within_shorter c (e ∷ query) text q)
  | inr q ↦ ground (arith, h, q)
]

is_within_longer :
    (query : List ℕ) (d : ℕ) (text : List ℕ)
    → is_within query text ≡ true
    → is_within query (d ∷ text) ≡ true
is_within_longer [] d text h = refl
is_within_longer (c ∷ query) d text h = ground (arith, h)

absorbs : (a b : Bool) → (b ≡ true → a ≡ true) → a ≡ (a || b)
absorbs true b f = refl
absorbs false true f = f refl
absorbs false false f = refl

-- Taking each unit at its first place misses no match.
match_units-is_within :
    (ti : ℕ) (f l : ℤ) (query text : List ℕ)
    → is_some (match_units ti f l query text) ≡ is_within query text
unfolding match_units
match_units-is_within ti f l [] text = refl
match_units-is_within ti f l (c ∷ query) [] = refl
match_units-is_within ti f l (c ∷ query) (d ∷ text) = elim (Bool-cases (eqb d c)) [
  | inl q ↦ rw q (
      match_units-is_within (ti + 1) (if ltb_ℤ f (pos 0) then pos ti else f) (pos ti) query text
      ∙ absorbs (is_within query text) (is_within (c ∷ query) text)
          (is_within_shorter c query text))
  | inr q ↦ rw q (match_units-is_within (ti + 1) f l (c ∷ query) text)
]

is_some-compactness : (n : ℕ) (o : Option (ℤ × ℤ)) → is_some (compactness n o) ≡ is_some o
is_some-compactness n none = refl
is_some-compactness n (some (f, l)) = refl

starts_with-is_within :
    (query text : List ℕ) → starts_with query text ≡ true → is_within query text ≡ true
starts_with-is_within [] text h = refl
starts_with-is_within (c ∷ query) [] h = cc
starts_with-is_within (c ∷ query) (d ∷ text) h = elim (Bool-cases (eqb d c)) [
  | inl q ↦ ground (arith, q, starts_with-is_within query text (rw q at h))
  | inr q ↦ ground (arith, h, q)
]

index_from-is_within :
    (i j : ℕ) (query text : List ℕ) → index_from i query text ≡ some j → is_within query text ≡ true
unfolding index_from
index_from-is_within i j query [] h = elim (Bool-cases (starts_with query [])) [
  | inl q ↦ starts_with-is_within query [] q
  | inr q ↦ let no : none ≡ some j = rw q at h in cc
]
index_from-is_within i j query (d ∷ text) h = elim (Bool-cases (starts_with query (d ∷ text))) [
  | inl q ↦ starts_with-is_within query (d ∷ text) q
  | inr q ↦ is_within_longer query d text (index_from-is_within (i + 1) j query text (rw q at h))
]

eq_codes-is_within :
    (text query : List ℕ) → eq_codes text query ≡ true → is_within query text ≡ true
unfolding eq_codes
eq_codes-is_within text [] h = refl
eq_codes-is_within [] (c ∷ query) h = cc
eq_codes-is_within (d ∷ text) (c ∷ query) h = elim (Bool-cases (eqb d c)) [
  | inl q ↦ ground (arith, q, eq_codes-is_within text query (rw q at h))
  | inr q ↦ ground (arith, h, q)
]

is_some-score_at :
    (query text : List ℕ) (o : Option ℕ)
    → index_from 0 query text ≡ o
    → is_some (score_at query text o) ≡ is_within query text
unfolding subsequence_score
is_some-score_at query text none e =
    is_some-compactness (length query) (match_units 0 (negsuc 0) (negsuc 0) query text)
    ∙ match_units-is_within 0 (negsuc 0) (negsuc 0) query text
is_some-score_at query text (some zero) e = sym (index_from-is_within 0 zero query text e)
is_some-score_at query text (some (suc i)) e = sym (index_from-is_within 0 (suc i) query text e)

-- A text has a score just if the units of the query are in it, in their order, with any others between
-- them.
pub score_units-is_within :
    (query text : List ℕ) → is_some (score_units query text) ≡ is_within query text
unfolding score_units
score_units-is_within [] text = refl
score_units-is_within (c ∷ query) text = elim (Bool-cases (eq_codes text (c ∷ query))) [
  | inl q ↦ rw q (sym (eq_codes-is_within text (c ∷ query) q))
  | inr q ↦ rw q (is_some-score_at (c ∷ query) text (index_from 0 (c ∷ query) text) refl)
]

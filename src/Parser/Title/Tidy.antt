-- ===== src/Parser/Title/Tidy.antt =====
-- The spaces of a title that packages/nl-parser/src/title.ts makes.
use balu_todo.Prelude.{
  ℕ, ◌≡◌, ◌⊎◌, inl, inr, refl, ap, ◌∙◌, Bool, true, false, not, ◌&&◌, [], ◌∷◌, filter, arith, eqb,
  Bool-cases, if◌then◌else◌,
}
use balu_todo.Parser.Types.{Text}
use balu_todo.Parser.Title.{is_space, collapse, trim_start, before, trim_end, trim}

-- Only single blanks, and none right after a blank.
abbrev is_spaced : Bool → Text → Bool
is_spaced after_blank [] = true
is_spaced after_blank (c ∷ text) =
    let spaced = is_spaced true text in
    let plain = is_spaced false text in
    if is_space c then eqb c 32 && not after_blank && spaced else plain

-- The same, and no blank at the end.
abbrev pub is_tidy_after : Bool → Text → Bool
is_tidy_after after_blank [] = not after_blank
is_tidy_after after_blank (c ∷ text) =
    let spaced = is_tidy_after true text in
    let plain = is_tidy_after false text in
    if is_space c then eqb c 32 && not after_blank && spaced else plain

abbrev pub is_tidy : Text → Bool
is_tidy [] = true
is_tidy (c ∷ text) = is_tidy_after true (c ∷ text)

abbrev pub visible : Text → Text
visible text = filter (λ c. not (is_space c)) text

collapse-is_spaced : (b : Bool) (text : Text) → is_spaced b (collapse b text) ≡ true
unfolding collapse
collapse-is_spaced b [] = refl
collapse-is_spaced true (c ∷ text) = elim (Bool-cases (is_space c)) [
  | inl q ↦ rw q (collapse-is_spaced true text)
  | inr q ↦ rw (q, q) (collapse-is_spaced false text)
]
collapse-is_spaced false (c ∷ text) = elim (Bool-cases (is_space c)) [
  | inl q ↦ rw q (collapse-is_spaced true text)
  | inr q ↦ rw (q, q) (collapse-is_spaced false text)
]

-- Before the first visible unit every blank goes.
trim_start-is_spaced :
    (b : Bool) (text : Text) → is_spaced b text ≡ true → is_spaced true (trim_start text) ≡ true
unfolding trim_start
trim_start-is_spaced b [] h = refl
trim_start-is_spaced b (c ∷ text) h = elim (Bool-cases (is_space c)) [
  | inl q ↦ rw q (trim_start-is_spaced true text (ground (arith, q, h)))
  | inr q ↦ rw (q, q) (rw q at h)
]

abbrev IsEnded : Bool → Text → Type 0
IsEnded b text = (text ≡ []) ⊎ (is_tidy_after b text ≡ true)

IsEnded-before_space :
    (b : Bool) (c : ℕ) (rest : Text)
    → is_space c ≡ true
    → (eqb c 32 && not b) ≡ true
    → IsEnded true rest
    → IsEnded b (before c rest)
IsEnded-before_space b c [] q h e = inl (rw q)
IsEnded-before_space b c (d ∷ rest) q h (inl e) = cc
IsEnded-before_space b c (d ∷ rest) q h (inr e) = inr (ground (arith, q, h, e))

IsEnded-before_visible :
    (b : Bool) (c : ℕ) (rest : Text)
    → is_space c ≡ false
    → IsEnded false rest
    → IsEnded b (before c rest)
IsEnded-before_visible b c [] q e = inr (rw (q, q))
IsEnded-before_visible b c (d ∷ rest) q (inl e) = cc
IsEnded-before_visible b c (d ∷ rest) q (inr e) = inr (ground (arith, q, e))

trim_end-IsEnded : (b : Bool) (text : Text) → is_spaced b text ≡ true → IsEnded b (trim_end text)
unfolding trim_end
trim_end-IsEnded b [] h = inl refl
trim_end-IsEnded b (c ∷ text) h = elim (Bool-cases (is_space c)) [
  | inl q ↦
      IsEnded-before_space b c (trim_end text) q (ground (arith, q, h))
        (trim_end-IsEnded true text (ground (arith, q, h)))
  | inr q ↦
      IsEnded-before_visible b c (trim_end text) q
        (trim_end-IsEnded false text (ground (arith, q, h)))
]

is_tidy_ended : (text : Text) → IsEnded true text → is_tidy text ≡ true
is_tidy_ended [] e = refl
is_tidy_ended (c ∷ text) (inl e) = cc
is_tidy_ended (c ∷ text) (inr e) = e

pub is_tidy-trim : (text : Text) → is_tidy (trim (collapse false text)) ≡ true
unfolding trim
is_tidy-trim text = is_tidy_ended (trim_end (trim_start (collapse false text))) (
    trim_end-IsEnded true (trim_start (collapse false text))
      (trim_start-is_spaced false (collapse false text) (collapse-is_spaced false text)))

visible-trim_start : (text : Text) → visible (trim_start text) ≡ visible text
unfolding trim_start
visible-trim_start [] = refl
visible-trim_start (c ∷ text) = elim (Bool-cases (is_space c)) [
  | inl q ↦ rw q (visible-trim_start text)
  | inr q ↦ rw (q, q)
]

visible-before : (c : ℕ) (rest : Text) → visible (before c rest) ≡ visible (c ∷ rest)
visible-before c [] = elim (Bool-cases (is_space c)) [ inl q ↦ rw q | inr q ↦ rw (q, q) ]
visible-before c (d ∷ rest) = refl

visible-trim_end : (text : Text) → visible (trim_end text) ≡ visible text
unfolding trim_end
visible-trim_end [] = refl
visible-trim_end (c ∷ text) =
    visible-before c (trim_end text)
    ∙ ap (λ l. if not (is_space c) then c ∷ l else l) (visible-trim_end text)

pub visible-trim : (text : Text) → visible (trim text) ≡ visible text
unfolding trim
visible-trim text = visible-trim_end (trim_start text) ∙ visible-trim_start text

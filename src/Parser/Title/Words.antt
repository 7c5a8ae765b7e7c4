-- ===== src/Parser/Title/Words.antt =====
-- The words of a title that packages/nl-parser/src/title.ts makes.
use balu_todo.Prelude.{
  ℕ, ◌≡◌, refl, ◌∙◌, inl, inr, Bool, true, false, List, [], ◌∷◌, Bool-cases, if◌then◌else◌,
}
use balu_todo.Parser.Types.{Text}
use balu_todo.Parser.Title.{is_space, collapse, trim_start, before, trim_end, trim}

-- No word goes on with the text.
abbrev ends_word : Text → Bool
ends_word [] = true
ends_word (c ∷ text) = is_space c

-- A unit before the words of the rest: a word of its own, or the start of the first one.
abbrev attach : ℕ → Bool → List Text → List Text
attach c true rest = (c ∷ []) ∷ rest
attach c false [] = (c ∷ []) ∷ []
attach c false (w ∷ rest) = (c ∷ w) ∷ rest

-- The longest runs of units that are no spaces, in order.
abbrev pub words_of : Text → List Text
words_of [] = []
words_of (c ∷ text) =
    let rest = words_of text in if is_space c then rest else attach c (ends_word text) rest

ends_word-collapse : (text : Text) → ends_word (collapse false text) ≡ ends_word text
unfolding collapse
ends_word-collapse [] = refl
ends_word-collapse (c ∷ text) = elim (Bool-cases (is_space c)) [ inl q ↦ rw q | inr q ↦ rw (q, q) ]

words_of-collapse : (b : Bool) (text : Text) → words_of (collapse b text) ≡ words_of text
unfolding collapse
words_of-collapse b [] = refl
words_of-collapse true (c ∷ text) = elim (Bool-cases (is_space c)) [
  | inl q ↦ rw q (words_of-collapse true text)
  | inr q ↦ rw (q, q, ends_word-collapse text, words_of-collapse false text)
]
words_of-collapse false (c ∷ text) = elim (Bool-cases (is_space c)) [
  | inl q ↦ rw q (words_of-collapse true text)
  | inr q ↦ rw (q, q, ends_word-collapse text, words_of-collapse false text)
]

words_of-trim_start : (text : Text) → words_of (trim_start text) ≡ words_of text
unfolding trim_start
words_of-trim_start [] = refl
words_of-trim_start (c ∷ text) = elim (Bool-cases (is_space c)) [
  | inl q ↦ rw q (words_of-trim_start text)
  | inr q ↦ rw (q, q)
]

words_of-before : (c : ℕ) (rest : Text) → words_of (before c rest) ≡ words_of (c ∷ rest)
words_of-before c [] = elim (Bool-cases (is_space c)) [ inl q ↦ rw q | inr q ↦ rw (q, q) ]
words_of-before c (d ∷ rest) = refl

ends_word-before : (c : ℕ) (rest : Text) → ends_word (before c rest) ≡ is_space c
ends_word-before c [] = elim (Bool-cases (is_space c)) [ inl q ↦ rw q | inr q ↦ rw (q, q) ]
ends_word-before c (d ∷ rest) = refl

ends_word-trim_end : (text : Text) → ends_word (trim_end text) ≡ ends_word text
unfolding trim_end
ends_word-trim_end [] = refl
ends_word-trim_end (c ∷ text) = ends_word-before c (trim_end text)

words_of-trim_end : (text : Text) → words_of (trim_end text) ≡ words_of text
unfolding trim_end
words_of-trim_end [] = refl
words_of-trim_end (c ∷ text) =
    words_of-before c (trim_end text) ∙ rw (ends_word-trim_end text, words_of-trim_end text) refl

-- The title has the words of the text that it is made of.
pub words_of-title : (text : Text) → words_of (trim (collapse false text)) ≡ words_of text
unfolding trim
words_of-title text =
    words_of-trim_end (trim_start (collapse false text))
    ∙ words_of-trim_start (collapse false text)
    ∙ words_of-collapse false text

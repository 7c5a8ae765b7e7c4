-- ===== src/Parser/Title.antt =====
-- `buildTitle` of packages/nl-parser/src/title.ts.
pub mod Uncovered
pub mod Tidy
pub mod Words
use balu_todo.Prelude.{
  ℕ, max, Bool, true, false, ◌&&◌, ◌||◌, List, [], ◌∷◌, ◌++◌, take, drop, eqb, leb, ltb,
  if◌then◌else◌,
}
use balu_todo.Prelude.Int.{ℤ, pos}
use balu_todo.Prelude.Sort.{sort}
use balu_todo.Prelude.Compare.{◌-ℤ◌}
use balu_todo.Parser.Types.{Text, Span}

-- `\s`
abbrev pub is_space : ℕ → Bool
is_space c =
    (leb 9 c && leb c 13)
    || eqb c 32
    || eqb c 160
    || eqb c 5760
    || (leb 8192 c && leb c 8202)
    || eqb c 8232
    || eqb c 8233
    || eqb c 8239
    || eqb c 8287
    || eqb c 12_288
    || eqb c 65_279

-- `text.slice(from, to)`
abbrev pub slice : Text → ℕ → ℕ → Text
slice text from to = drop from (take to text)

abbrev pub by_first : Span → Span → ℤ
by_first a b = pos a.first -ℤ pos b.first

-- The loop over the spans, from a cursor on, and the `slice` after it.
unfoldable pub strip_from : Text → ℕ → List Span → Text
strip_from text cursor [] = drop cursor text
strip_from text cursor (s ∷ spans) =
    let rest = strip_from text (max cursor s.past) spans in
    if ltb cursor s.first then slice text cursor s.first ++ rest else rest

-- `replace(/\s+/g, " ")`, where the unit before is a space of the same run or is not.
unfoldable pub collapse : Bool → Text → Text
collapse in_run [] = []
collapse in_run (c ∷ text) =
    let spaced = collapse true text in
    let plain = collapse false text in
    if is_space c then (if in_run then spaced else 32 ∷ spaced) else c ∷ plain

-- `trim()`: the spaces at the front, and those at the end.
unfoldable pub trim_start : Text → Text
trim_start [] = []
trim_start (c ∷ text) = let rest = trim_start text in if is_space c then rest else c ∷ text

-- A unit before a trimmed rest: a space stands only before something.
abbrev pub before : ℕ → Text → Text
before c [] = if is_space c then [] else c ∷ []
before c (d ∷ rest) = c ∷ d ∷ rest

unfoldable pub trim_end : Text → Text
trim_end [] = []
trim_end (c ∷ text) = before c (trim_end text)

unfoldable pub trim : Text → Text
unfolding trim_start trim_end
trim text = trim_end (trim_start text)

unfoldable pub build_title : Text → List Span → Text
unfolding strip_from collapse trim
build_title text spans = trim (collapse false (strip_from text 0 (sort by_first spans)))

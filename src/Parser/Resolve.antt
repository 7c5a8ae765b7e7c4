-- ===== src/Parser/Resolve.antt =====
-- `collect` and `resolve` of packages/nl-parser/src/index.ts: the tokens that are chosen among all
-- that the matchers of the grammar find.
pub mod Laws
use balu_todo.Prelude.{
  ℕ, ◌+◌, ◌-◌, Bool, true, false, Option, none, some, List, [], ◌∷◌, ◌++◌, eqb, leb, if◌then◌else◌,
}
use balu_todo.Prelude.Int.{ℤ, pos}
use balu_todo.Prelude.Sort.{sort}
use balu_todo.Prelude.Compare.{◌-ℤ◌, first_of}
use balu_todo.Parser.Types.{Meaning, Span, Text}

pub record Candidate : Type 0 where
  pub meaning : Meaning
  pub span : Span
  pub order : ℕ
  pub time_deadline : Bool

-- What `build` makes of a match.
pub record Payload : Type 0 where
  pub meaning : Meaning
  pub is_deadline : Bool

-- A match of a regular expression: its place, its length, and its payload, if it has one.
pub record Match : Type 0 where
  pub index : ℕ
  pub size : ℕ
  pub payload : Option Payload

-- A matcher of the grammar, as the matches that it finds in a text.
abbrev pub Matcher : Type 0
Matcher = Text → List Match

abbrev pub candidate : Match → ℕ → Payload → Candidate
candidate m order p = record {
  meaning = p.meaning;
  span = record { first = m.index; past = m.index + m.size };
  order = order;
  time_deadline = p.is_deadline;
}

-- One round of the loop over the matches.
abbrev pub keep : Match → ℕ → Option Payload → List Candidate → List Candidate
keep m order none rest = rest
keep m order (some p) rest = candidate m order p ∷ rest

unfoldable pub collect_matches : ℕ → List Match → List Candidate
collect_matches order [] = []
collect_matches order (m ∷ ms) =
    let rest = collect_matches order ms in
    let kept = keep m order m.payload rest in if eqb m.size 0 then rest else kept

unfoldable pub collect : Text → List Matcher → ℕ → List Candidate
unfolding collect_matches
collect text [] order = []
collect text (matcher ∷ matchers) order =
    collect_matches order (matcher text) ++ collect text matchers (order + 1)

abbrev pub size : Candidate → ℤ
size c = pos c.span.past -ℤ pos c.span.first

abbrev pub by_place : Candidate → Candidate → ℤ
by_place a b =
    first_of (pos a.span.first -ℤ pos b.span.first)
      (first_of (size b -ℤ size a) (pos a.order -ℤ pos b.order))

-- The loop over the sorted candidates: each is chosen that begins at or after the end of the last
-- chosen one.
unfoldable pub choose : ℕ → List Candidate → List Candidate
choose last_end [] = []
choose last_end (c ∷ cands) =
    let chosen = c ∷ choose c.span.past cands in
    let passed = choose last_end cands in if leb last_end c.span.first then chosen else passed

-- `lastEnd` is -1 at first, and no candidate begins before 0.
unfoldable pub resolve : List Candidate → List Candidate
unfolding choose
resolve cands = choose 0 (sort by_place cands)

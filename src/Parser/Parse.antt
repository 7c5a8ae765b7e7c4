-- ===== src/Parser/Parse.antt =====
-- `parseQuickAdd` of packages/nl-parser/src/index.ts, over the matchers of the grammar.
pub mod Laws
use balu_todo.Prelude.{
  ℕ, Bool, true, false, not, ◌&&◌, ◌||◌, String, Option, none, some, List, [], ◌∷◌, ◌++◌, map,
  length, if◌then◌else◌,
}
use balu_todo.Prelude.Int.{ℤ, pos}
use balu_todo.Prelude.Sort.{sort}
use balu_todo.Prelude.Compare.{◌-ℤ◌}
use balu_todo.Parser.Types.{
  Text, Span, Token, ParseResult, Meaning, start, deadline, evening, priority, project, label,
  recurrence, time,
}
use balu_todo.Parser.Title.{slice, build_title}
use balu_todo.Parser.Resolve.{Candidate, Matcher, collect, resolve}

abbrev pub is_deadline : Meaning → Bool
is_deadline (deadline d) = true
is_deadline m = false

-- `chosen.some((c) => c.type === "deadline")`
unfoldable pub has_deadline : List Candidate → Bool
has_deadline [] = false
has_deadline (c ∷ cs) = is_deadline c.meaning || has_deadline cs

-- The second token as the deadline, if it is a start and the first one a time with a deadline word.
abbrev pub due_start : Candidate → Meaning → Meaning → Option Meaning
due_start a (time t) (start d) = if a.time_deadline then some (deadline d) else none
due_start a m n = none

module _ (is_gap : Text → Bool) (text : Text) where
  -- `/^\s*(?:(?:on|am)\s+)?$/i` of the text between two tokens is the parameter `is_gap`.
  abbrev pub becomes_due : Candidate → Candidate → Option Meaning
  becomes_due a b =
      if is_gap (slice text a.span.past b.span.first) then due_start a a.meaning b.meaning else none

  abbrev pub turn :
      Candidate → Candidate → Option Meaning → List Candidate → List Candidate → List Candidate
  turn a b none rest later = a ∷ later
  turn a b (some m) rest later = a ∷ record b { meaning = m } ∷ rest

  -- The loop over the pairs of neighbours, which ends with the first pair that it changes.
  unfoldable pub absorb : List Candidate → List Candidate
  absorb [] = []
  absorb (a ∷ []) = a ∷ []
  absorb (a ∷ b ∷ rest) = turn a b (becomes_due a b) rest (absorb (b ∷ rest))

  unfoldable pub absorb_keyword : List Candidate → List Candidate
  unfolding absorb has_deadline
  absorb_keyword chosen = if has_deadline chosen then chosen else absorb chosen

abbrev pub empty_result : ParseResult
empty_result = record {
  title = [];
  start_date = none;
  deadline = none;
  evening = false;
  priority = none;
  project_query = none;
  label_queries = [];
  recurrence = none;
  time = none;
  time_is_deadline = false;
  tokens = [];
}

-- The `switch` on the type of a token.
abbrev pub read_token : Candidate → Meaning → ParseResult → ParseResult
read_token c (start d) r = record r { start_date = some d }
read_token c (deadline d) r = record r { deadline = some d }
read_token c (evening d) r = record r { evening = true; start_date = some d }
read_token c (priority n) r = record r { priority = some n }
read_token c (project q) r = record r { project_query = some q }
read_token c (label q) r = record r { label_queries = r.label_queries ++ q ∷ [] }
read_token c (recurrence q) r = record r { recurrence = some q }
read_token c (time t) r = record r { time = some t; time_is_deadline = c.time_deadline }

abbrev pub token_of : Candidate → Token
token_of c = record { meaning = c.meaning; span = c.span }

unfoldable pub read_tokens : ParseResult → List Candidate → ParseResult
read_tokens r [] = r
read_tokens r (c ∷ cs) =
    read_tokens (read_token c c.meaning (record r { tokens = r.tokens ++ token_of c ∷ [] })) cs

abbrev pub by_start : Candidate → Candidate → ℤ
by_start a b = pos a.span.first -ℤ pos b.span.first

unfoldable pub parse_quick_add : (Text → Bool) → List Matcher → List Matcher → Text → ParseResult
unfolding collect resolve absorb_keyword read_tokens
parse_quick_add is_gap symbol_matchers matchers text =
    let cands = collect text symbol_matchers 0 ++ collect text matchers (length symbol_matchers) in
    let chosen = absorb_keyword is_gap text (sort by_start (resolve cands)) in
    record (read_tokens empty_result chosen) {
      title = build_title text (map (λ (c : Candidate). c.span) chosen);
    }

-- ===== src/Parser/Types.antt =====
-- packages/nl-parser/src/types.ts: the tokens of a quick-add text and what it means.
use balu_todo.Prelude.{ℕ, String, Bool, Option, List}
use balu_todo.Domain.Types.{IsoDate}

-- A text as its UTF-16 units, which the offsets of the tokens count.
abbrev pub Text : Type 0
Text = List ℕ

-- The type of a token with its value, which is a date, a number or a text as the type asks for.
pub data Meaning : Type 0 where
  start : IsoDate → Meaning
  deadline : IsoDate → Meaning
  evening : IsoDate → Meaning
  priority : ℕ → Meaning
  project : String → Meaning
  label : String → Meaning
  recurrence : String → Meaning
  time : String → Meaning

-- A span of a text: the offset of its first unit, and the one after its last.
pub record Span : Type 0 where
  pub first : ℕ
  pub past : ℕ

pub record Token : Type 0 where
  pub meaning : Meaning
  pub span : Span

pub record ParseResult : Type 0 where
  pub title : Text
  pub start_date : Option IsoDate
  pub deadline : Option IsoDate
  pub evening : Bool
  pub priority : Option ℕ
  pub project_query : Option String
  pub label_queries : List String
  pub recurrence : Option String
  pub time : Option String
  pub time_is_deadline : Bool
  pub tokens : List Token

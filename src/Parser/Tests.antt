-- ===== src/Parser/Tests.antt =====
-- Instances of the theorems about packages/nl-parser/src.
use balu_todo.Prelude.{refl, List, [], ◌∷◌, some, false, Bool, ℕ, ◌+◌}
use balu_todo.Prelude.Codes.{codes}
use balu_todo.Domain.Types.{at}
use balu_todo.Parser.Types.{Text, ParseResult, Meaning, start, time, project, priority}
use balu_todo.Parser.Resolve.{Candidate, Matcher, resolve}
use balu_todo.Parser.Resolve.Laws.{IsResolved, resolve-IsResolved}
use balu_todo.Parser.Parse.{parse_quick_add}
use balu_todo.Parser.Parse.Laws.{IsParsed, parse_quick_add-IsParsed}
use balu_todo.Parser.Target.{TargetProject, in_list}
use balu_todo.Parser.Compose.{NamedEntity, Runtime, compose_task_args}
use balu_todo.Parser.Compose.Laws.{IsComposed, compose_task_args-IsComposed}

abbrev call_text : Text
call_text = codes "Call Ann tomorrow at 9 #home"

-- A matcher that finds one span of every text.
abbrev found : ℕ → ℕ → Meaning → Matcher
found index size meaning text =
    record {
      index = index;
      size = size;
      payload = some (record { meaning = meaning; is_deadline = false });
    }
    ∷ []

abbrev symbols : List Matcher
symbols = found 23 5 (project "home") ∷ []

abbrev words : List Matcher
words = found 9 8 (start 20260724) ∷ found 18 4 (time "09:00") ∷ found 9 13 (start 20260725) ∷ []

abbrev no_gap : Text → Bool
no_gap text = false

abbrev result : ParseResult
result = parse_quick_add no_gap symbols words call_text

parse_quick_add-IsParsed_example : IsParsed call_text result
parse_quick_add-IsParsed_example = parse_quick_add-IsParsed no_gap symbols words call_text

abbrev on : ℕ → ℕ → Candidate
on first past = record {
  meaning = priority 1;
  span = record { first = first; past = past };
  order = 0;
  time_deadline = false;
}

abbrev overlapping : List Candidate
overlapping = on 4 9 ∷ on 0 5 ∷ on 0 3 ∷ on 5 6 ∷ []

resolve-IsResolved_example : IsResolved overlapping (resolve overlapping)
resolve-IsResolved_example = resolve-IsResolved overlapping (refl, (refl, (refl, (refl, tt))))

abbrev archived_home : List TargetProject
archived_home =
    record { id = "p"; is_deleted = false; archived_at = some "2026-07-01T08:00:00Z" } ∷ []

abbrev home : List NamedEntity
home = record { id = "p"; name = "home"; is_deleted = false } ∷ []

-- Every time of a day as noon of an early day.
abbrev here : Runtime
here = record { lower = λ s. s; to_utc = λ day time. at (day + 43_200_000); now = 86_400_000 }

compose_task_args-IsComposed_example :
    IsComposed here home []
      (in_list "today")
      call_text
      result
      (compose_task_args here home [] 20260723 (in_list "today") call_text result)
compose_task_args-IsComposed_example =
    compose_task_args-IsComposed here home [] 20260723 (in_list "today") call_text result

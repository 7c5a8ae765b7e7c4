-- ===== src/Parser/Compose.antt =====
-- `composeTaskArgs` of packages/nl-parser/src/compose.ts.
pub mod Days
pub mod Matching
pub mod Laws
use balu_todo.Prelude.{
  ℕ, ◌+◌, ◌-◌, ◌*◌, zero, suc, Bool, true, false, not, ◌&&◌, ◌||◌, String, ◌==◌, Option, none, some,
  List, [], ◌∷◌, ◌++◌, map, eqb, leb, is_some, or_else, or_maybe, truthy, if◌then◌else◌,
}
use balu_todo.Prelude.Int.{pos}
use balu_todo.Prelude.Codes.{codes, is, split}
use balu_todo.Domain.Types.{IsoDate, Instant, at, unreadable}
use balu_todo.Parser.Types.{Text, Span, Token, ParseResult, Meaning, project, label}
use balu_todo.Parser.Title.{build_title, trim}
use balu_todo.Parser.DateMath.{add_days, dow}
use balu_todo.Parser.Target.{ComposeContext, in_project, in_list, nowhere}
use balu_todo.Parser.FirstDay.{first_occurrence_on_or_after}

pub record NamedEntity : Type 0 where
  pub id : String
  pub name : String
  pub is_deleted : Bool

-- The keys of the arguments: a flag or a list that is not set is `false` or empty.
pub record TaskArgs : Type 0 where
  pub title : Text
  pub start_date : Option IsoDate
  pub deadline : Option IsoDate
  pub evening : Bool
  pub someday : Bool
  pub priority : Option ℕ
  pub recurrence : Option String
  pub project_id : Option String
  pub label_ids : List String
  pub reminder_at : Option Instant

-- The parameters of a composition: the engine's `toLowerCase`, the local time zone, and the clock.
pub record Runtime : Type 0 where
  pub lower : String → String
  pub to_utc : IsoDate → String → Instant
  pub now : ℕ

-- `Date.parse(at) <= now`, where a text that is no date is not.
abbrev pub is_over : Instant → ℕ → Bool
is_over (at ms) now = leb ms now
is_over (unreadable s) now = false

-- `if (args["start_date"] === day) args["start_date"] = next`
abbrev pub shifted : Option IsoDate → IsoDate → IsoDate → Option IsoDate
shifted none day next = none
shifted (some d) day next = if eqb d day then some next else some d

abbrev pub nonzero : Option ℕ → Option ℕ
nonzero none = none
nonzero (some n) = if eqb n 0 then none else some n

-- The variables of the loop over the tokens.
pub record Matched : Type 0 where
  pub project_id : Option String
  pub label_ids : List String
  pub strip : List Span

-- The day of the reminder, and the arguments.
pub record Dated : Type 0 where
  pub day : IsoDate
  pub args : TaskArgs

module _ (env : Runtime) where
  unfoldable pub match_by_name : List NamedEntity → String → Option NamedEntity
  match_by_name [] query = none
  match_by_name (i ∷ items) query =
      if not i.is_deleted && env.lower i.name == env.lower query
      then some i
      else match_by_name items query

  abbrev pub file_under : Option NamedEntity → Span → Matched → Matched
  file_under none span m = m
  file_under (some p) span m = record m {
    project_id = if is_some (truthy m.project_id) then m.project_id else some p.id;
    strip = m.strip ++ span ∷ [];
  }

  abbrev pub add_label : Option NamedEntity → Span → Matched → Matched
  add_label none span m = m
  add_label (some l) span m = record m {
    label_ids = m.label_ids ++ l.id ∷ [];
    strip = m.strip ++ span ∷ [];
  }

  module _ (projects labels : List NamedEntity) where
    abbrev pub match_token : Meaning → Span → Matched → Matched
    match_token (project q) span m = file_under (match_by_name projects q) span m
    match_token (label q) span m = add_label (match_by_name labels q) span m
    match_token meaning span m = record m { strip = m.strip ++ span ∷ [] }

    unfoldable pub match_tokens : Matched → List Token → Matched
    unfolding match_by_name
    match_tokens m [] = m
    match_tokens m (tok ∷ toks) = match_tokens (match_token tok.meaning tok.span m) toks

    -- `a || b` of texts
    abbrev pub or_text : Text → Text → Text
    or_text [] b = b
    or_text (c ∷ a) b = c ∷ a

    unfoldable pub typed_args : Text → ParseResult → TaskArgs
    unfolding match_tokens build_title trim
    typed_args text result =
        let m =
          match_tokens (record { project_id = none; label_ids = []; strip = [] }) result.tokens in
        record {
          title = or_text (build_title text m.strip) (trim text);
          start_date = result.start_date;
          deadline = result.deadline;
          evening = result.evening;
          someday = false;
          priority = nonzero result.priority;
          recurrence = truthy result.recurrence;
          project_id = truthy m.project_id;
          label_ids = m.label_ids;
          reminder_at = none;
        }

  abbrev pub today_default : String → IsoDate → TaskArgs → TaskArgs
  today_default list today args = record args {
    start_date =
        if list == "today" && not (is_some args.start_date) && not args.someday
        then some today
        else args.start_date;
  }

  abbrev pub someday_default : String → TaskArgs → TaskArgs
  someday_default list args = record args {
    someday = if list == "someday" then true else args.someday;
    start_date = if list == "someday" then none else args.start_date;
  }

  unfoldable pub with_context : ComposeContext → IsoDate → TaskArgs → TaskArgs
  with_context (in_project id) today args = record args {
    project_id = or_maybe args.project_id (some id);
  }
  with_context (in_list list) today args = someday_default list (today_default list today args)
  with_context nowhere today args = args

  -- A start on the day of the reminder moves with it.
  abbrev pub move_to : IsoDate → Dated → Dated
  move_to next d = record {
    day = next;
    args = record (d.args) { start_date = shifted d.args.start_date d.day next };
  }

  abbrev pub is_explicit : ParseResult → Bool
  is_explicit result = is_some result.start_date || is_some result.deadline

  -- Without a typed date, the first day that the rule can fire on.
  abbrev pub to_first : Option String → Dated → Dated
  to_first none d = d
  to_first (some rrule) d = move_to (first_occurrence_on_or_after rrule d.day) d

  abbrev pub next_day : Option String → IsoDate → IsoDate → IsoDate
  next_day none today day = add_days today (pos 1)
  next_day (some rrule) today day = first_occurrence_on_or_after rrule (add_days day (pos 1))

  -- A time that is over today: the next day with it.
  abbrev pub to_next : Option String → IsoDate → String → Dated → Dated
  to_next rrule today time d =
      if is_over (env.to_utc d.day time) env.now then move_to (next_day rrule today d.day) d else d

  unfoldable pub dated : ParseResult → IsoDate → String → TaskArgs → Dated
  unfolding first_occurrence_on_or_after add_days
  dated result today time args =
      let day =
        or_else (or_maybe result.start_date (or_maybe result.deadline args.start_date)) today in
      let d : Dated = record { day = day; args = args } in
      if is_explicit result
      then d
      else to_next (truthy result.recurrence) today time (to_first (truthy result.recurrence) d)

  abbrev pub due_at_time : ParseResult → Dated → TaskArgs
  due_at_time result d = record (d.args) {
    deadline =
        if result.time_is_deadline
          && not (is_some result.deadline)
          && not (is_some (truthy result.recurrence))
        then some d.day
        else d.args.deadline;
  }

  abbrev pub with_time : Option String → ParseResult → IsoDate → TaskArgs → TaskArgs
  with_time none result today args = args
  with_time (some time) result today args =
      let d = dated result today time args in
      record (due_at_time result d) { reminder_at = some (env.to_utc d.day time) }

  unfoldable pub compose_task_args :
      List NamedEntity → List NamedEntity → IsoDate → ComposeContext → Text → ParseResult → TaskArgs
  unfolding typed_args with_context dated
  compose_task_args projects labels today context text result =
      with_time (truthy result.time) result today
        (with_context context today (typed_args projects labels text result))

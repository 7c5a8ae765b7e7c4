-- ===== src/Domain/Lists/Select.antt =====
-- `selectList` of packages/domain/src/taskLists.ts: the tasks of a smart list, in its order.
pub mod Laws
use balu_todo.Prelude.{
  ℕ, String, Bool, true, false, Option, none, some, List, [], ◌∷◌, filter, eqb, ltb, leb, or_else,
  if◌then◌else◌,
}
use balu_todo.Prelude.Int.{ℤ, pos}
use balu_todo.Prelude.Sort.{sort}
use balu_todo.Prelude.Compare.{◌-ℤ◌, first_of, compare_text, compare_last}
use balu_todo.Domain.Types.{Task, Project, IsoDate}
use balu_todo.Domain.Projects.{exclude_archived_project_tasks}
use balu_todo.Domain.Lists.{
  SmartList, inbox, today, upcoming, anytime, someday, logbook, assigned, matches_list, past_today,
}

unfoldable pub priority_rank : ℕ → ℕ
priority_rank p = if eqb p 0 then 4 else p

-- The dates after today of a start and a deadline, and the earlier of them.
abbrev pub future : Option IsoDate → IsoDate → Option IsoDate
future none day = none
future (some d) day = if ltb day d then some d else none

abbrev pub earlier : Option IsoDate → Option IsoDate → Option IsoDate
earlier none b = b
earlier (some a) none = some a
earlier (some a) (some b) = if leb a b then some a else some b

unfoldable pub upcoming_group_date : Task → IsoDate → Option IsoDate
upcoming_group_date t day = earlier (future t.start_date day) (future t.deadline day)

-- `t.deadline != null && t.deadline < today ? 0 : 1`
abbrev pub overdue : Option IsoDate → IsoDate → ℕ
overdue none day = 1
overdue (some d) day = if ltb d day then 0 else 1

abbrev pub evening : Task → ℕ
evening t = if t.evening then 1 else 0

abbrev pub by_order : Task → Task → ℤ
by_order a b = a.sort_order -ℤ b.sort_order

abbrev pub by_priority : Task → Task → ℤ
by_priority a b = pos (priority_rank a.priority) -ℤ pos (priority_rank b.priority)

unfoldable pub compare_today : IsoDate → Task → Task → ℤ
compare_today day a b =
    first_of (pos (overdue a.deadline day) -ℤ pos (overdue b.deadline day))
      (first_of (pos (evening a) -ℤ pos (evening b)) (first_of (by_priority a b) (by_order a b)))

unfoldable pub compare_upcoming : IsoDate → Task → Task → ℤ
compare_upcoming day a b =
    first_of (compare_last (upcoming_group_date a day) (upcoming_group_date b day)) (by_order a b)

unfoldable pub compare_assigned : Task → Task → ℤ
compare_assigned a b =
    first_of (compare_last a.deadline b.deadline) (first_of (by_priority a b) (by_order a b))

unfoldable pub compare_anytime : Task → Task → ℤ
compare_anytime a b =
    first_of (compare_text (or_else a.project_id "") (or_else b.project_id "")) (by_order a b)

-- The order of the Logbook: the last completed first.
unfoldable pub compare_logbook : Task → Task → ℤ
compare_logbook a b = compare_text (or_else b.completed_at "") (or_else a.completed_at "")

-- The `switch` of `selectList`.
abbrev pub comparison : SmartList → IsoDate → Task → Task → ℤ
comparison today day = compare_today day
comparison upcoming day = compare_upcoming day
comparison assigned day = compare_assigned
comparison anytime day = compare_anytime
comparison logbook day = compare_logbook
comparison list day = by_order

abbrev pub pool : SmartList → List Task → List Project → List Task
pool logbook tasks projects = tasks
pool list tasks projects = exclude_archived_project_tasks tasks projects

unfoldable pub select_list :
    List Task → List Project → SmartList → IsoDate → Option String → List Task
select_list tasks projects list day user_id =
    sort (comparison list day)
      (filter (λ t. matches_list t list day user_id) (pool list tasks projects))

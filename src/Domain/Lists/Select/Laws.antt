-- ===== src/Domain/Lists/Select/Laws.antt =====
-- The order of each smart list of packages/domain/src/taskLists.ts, and what `selectList` returns.
use mathlib.Core.List.{Perm}
use balu_todo.Prelude.{
  String, ◌≡◌, none, some, zero, suc, if◌then◌else◌, Option, List, [], ◌∷◌, min, filter, or_else,
  Bool, true, false, ℕ, not, ltb,
}
use balu_todo.Prelude.Int.{ℤ, pos, leb_ℤ}
use balu_todo.Prelude.Sort.{goes_first}
use balu_todo.Prelude.Compare.Orders.{IsLessOr, IsEarlierOr, IsSoonerOr, IsFirstOr, IsPairwise}
use balu_todo.Domain.Types.{Task, Project, IsoDate}
use balu_todo.Domain.Projects.Archived.{shown}
use balu_todo.Domain.Lists.{SmartList, today, upcoming, anytime, logbook, assigned, matches_list}
use balu_todo.Domain.Lists.Select.{evening, comparison}

-- The tasks that a list is chosen from: those outside archived projects, or for the Logbook all.
abbrev pub candidates : SmartList → List Task → List Project → List Task
candidates logbook tasks projects = tasks
candidates list tasks projects = shown tasks projects

abbrev is_overdue : Option IsoDate → IsoDate → Bool
is_overdue none day = false
is_overdue (some d) day = ltb d day

-- The first day after `day` among the dates.
abbrev soonest : IsoDate → List (Option IsoDate) → Option IsoDate
soonest day [] = none
soonest day (none ∷ dates) = soonest day dates
soonest day (some d ∷ dates) =
    let rest = soonest day dates in if ltb day d then some (min d (or_else rest d)) else rest

-- The day of a task in Upcoming.
abbrev pub coming_day : IsoDate → Task → Option IsoDate
coming_day day t = soonest day (t.start_date ∷ t.deadline ∷ [])

-- The priorities are 1, 2, 3 and, for none, 0.
abbrev urgency : ℕ → ℤ
urgency zero = pos 4
urgency (suc p) = pos (suc p)

abbrev IsPlaced : Task → Task → Type 0
IsPlaced x y = leb_ℤ x.sort_order y.sort_order ≡ true

abbrev IsUrgent : Task → Task → Type 0
IsUrgent x y = IsLessOr (urgency x.priority) (urgency y.priority) (IsPlaced x y)

-- `x` may stand before `y`. Today has the overdue tasks first and those of the evening last, and then
-- goes by priority and place; Upcoming goes by date and place, the list of assigned tasks by deadline,
-- priority and place, Anytime by project and place, and the Logbook from the last completed one.
abbrev pub IsInOrder : SmartList → IsoDate → Task → Task → Type 0
IsInOrder today day x y =
    IsFirstOr (is_overdue x.deadline day) (is_overdue y.deadline day)
      (IsFirstOr (not x.evening) (not y.evening) (IsUrgent x y))
IsInOrder upcoming day x y = IsSoonerOr (coming_day day x) (coming_day day y) (IsPlaced x y)
IsInOrder assigned day x y = IsSoonerOr x.deadline y.deadline (IsUrgent x y)
IsInOrder anytime day x y =
    IsEarlierOr (or_else x.project_id "") (or_else y.project_id "") (IsPlaced x y)
IsInOrder logbook day x y = IsEarlierOr (or_else y.completed_at "") (or_else x.completed_at "") Unit
IsInOrder list day x y = IsPlaced x y

-- What `select_list` returns.
pub record IsSelected (tasks : List Task) (projects : List Project) (list : SmartList)
    (day : IsoDate) (user_id : Option String) (result : List Task) : Type 0 where
  pub complete :
      Perm result (filter (λ t. matches_list t list day user_id) (candidates list tasks projects))
  pub ordered : IsPairwise (IsInOrder list day) result
  pub stable :
      (p : Task → Bool)
      → ((x y : Task) → p x ≡ true → p y ≡ true → goes_first (comparison list day) x y ≡ false)
      → filter p result
        ≡ filter p (filter (λ t. matches_list t list day user_id) (candidates list tasks projects))

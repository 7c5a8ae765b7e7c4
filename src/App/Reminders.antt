-- ===== src/App/Reminders.antt =====
-- apps/mobile/src/lib/reminderPlan.ts: the local notifications that are scheduled.
pub mod Laws
use balu_todo.Prelude.{
  ℕ, String, Bool, ◌||◌, not, Option, none, some, List, [], ◌∷◌, take, leb, if◌then◌else◌,
}
use balu_todo.Prelude.Int.{ℤ, pos}
use balu_todo.Prelude.Sort.{sort}
use balu_todo.Prelude.Compare.{◌-ℤ◌}
use balu_todo.Domain.Types.{Task, Project, Instant, at, unreadable}
use balu_todo.Domain.Lists.{is_open}
use balu_todo.Domain.Projects.{exclude_archived_project_tasks}

abbrev reminder_cap : ℕ
reminder_cap = 50

pub record DesiredReminder : Type 0 where
  pub task_id : String
  pub fire_at_ms : ℕ
  pub title : String
  pub body : String

pub record ReconcileInput : Type 0 where
  pub tasks : List Task
  pub projects : List Project
  pub now_ms : ℕ
  pub render_body : Task → String
  pub cap : Option ℕ

abbrev pub cap_of : Option ℕ → ℕ
cap_of none = reminder_cap
cap_of (some n) = n

abbrev pub reminder_for : ReconcileInput → Task → ℕ → DesiredReminder
reminder_for input task ms = record {
  task_id = task.id;
  fire_at_ms = ms;
  title = task.title;
  body = input.render_body task;
}

-- The instant at which a task reminds, if it is after now.
abbrev pub fires_at : ℕ → Option Instant → Option ℕ
fires_at now none = none
fires_at now (some (at ms)) = if leb ms now then none else some ms
fires_at now (some (unreadable s)) = none

abbrev pub push : ReconcileInput → Task → Option ℕ → List DesiredReminder → List DesiredReminder
push input task none rest = rest
push input task (some ms) rest = reminder_for input task ms ∷ rest

-- The loop over the tasks.
unfoldable pub desired : ReconcileInput → List Task → List DesiredReminder
desired input [] = []
desired input (task ∷ tasks) =
    let rest = desired input tasks in
    let pushed = push input task (fires_at input.now_ms task.reminder_at) rest in
    if is_open task then pushed else rest

abbrev pub by_fire : DesiredReminder → DesiredReminder → ℤ
by_fire a b = pos a.fire_at_ms -ℤ pos b.fire_at_ms

unfoldable pub reconcile_reminders : ReconcileInput → List DesiredReminder
unfolding desired
reconcile_reminders input =
    take (cap_of input.cap)
      (sort by_fire (desired input (exclude_archived_project_tasks input.tasks input.projects)))

-- ===== src/App/Tests.antt =====
-- Instances of the theorems about the rules of the apps.
use balu_todo.Prelude.{refl, some, none, List, [], ◌∷◌, String, Option, false, ◌==◌, if◌then◌else◌}
use balu_todo.Dict.{values}
use balu_todo.Domain.Types.{Task, at, task_move}
use balu_todo.Domain.Move.{MoveTarget}
use balu_todo.Sync.Samples.{sample, task_of}
use balu_todo.Sync.Apply.Appended.{args_to}
use balu_todo.Sync.Client.Mutate.{CommandInput}
use balu_todo.Domain.Lists.{SmartList}
use balu_todo.App.History.{AppRoute, ViewSel, History, sync_url}
use balu_todo.App.History.Entries.{IsSynced, sync_url-IsSynced}
use balu_todo.App.Reminders.{ReconcileInput, reconcile_reminders}
use balu_todo.App.Reminders.Laws.{IsPlanned, reconcile_reminders-IsPlanned}
use balu_todo.App.Drag.{TaskDrag, DropInfo, project}

abbrev reminding : List Task
reminding =
    record (task_of "t" none none) { reminder_at = some (at 9000) }
    ∷ record (task_of "u" none none) { reminder_at = some (at 7000) }
    ∷ record (task_of "v" none none) { reminder_at = some (at 1000) }
    ∷ []

abbrev reminder_input : ReconcileInput
reminder_input = record {
  tasks = reminding;
  projects = [];
  now_ms = 5000;
  render_body = λ t. t.title;
  cap = some 1;
}

reconcile_reminders-IsPlanned_example :
    IsPlanned reminder_input (reconcile_reminders reminder_input)
reconcile_reminders-IsPlanned_example = reconcile_reminders-IsPlanned reminder_input

-- The task "u" of the Inbox, dragged onto the project "p".
abbrev dragged : TaskDrag
dragged = record {
  task_id = "u";
  group_key = "inbox";
  origin = record { project_id = none; section_id = none };
}

abbrev onto_home : DropInfo
onto_home = record {
  type = project;
  group_key = none;
  task_id = none;
  project_id = some "p";
  move = none;
}

abbrev at_home : MoveTarget
at_home = record { project_id = some "p"; section_id = none }

abbrev move_home : CommandInput
move_home = record {
  type = task_move;
  temp_id = none;
  args = args_to (task_of "u" none none) at_home (values sample.tasks);
}

-- The reader of the task "t" over the Inbox.
abbrev reading : AppRoute
reading = record {
  view = ViewSel.in_list SmartList.inbox;
  task_id = some "t";
  fullscreen_task_id = some "t";
}

abbrev closed_reader : AppRoute
closed_reader = record {
  view = ViewSel.in_list SmartList.inbox;
  task_id = none;
  fullscreen_task_id = none;
}

-- Ids without special characters, and the two URLs of the example.
abbrev encoded : String → String
encoded id = id

abbrev parsed : String → Option AppRoute
parsed url = if url == "/task/t" then some reading else some closed_reader

abbrev reader_open : History
reader_open = record {
  here = record { url = "/task/t"; under = some "/inbox" };
  below = record { url = "/inbox"; under = none } ∷ [];
}

sync_url-IsSynced_example :
    IsSynced encoded parsed closed_reader reader_open
      (sync_url encoded parsed closed_reader false reader_open)
sync_url-IsSynced_example =
    sync_url-IsSynced encoded parsed closed_reader false reader_open (refl, (tt, tt))

-- ===== src/App/Drag/Laws.antt =====
-- What a drop of apps/web/src/lib/drag.ts edits.
use balu_todo.Prelude.{◌≡◌, true, false, Option, none, some}
use balu_todo.Dict.{Dict, get, values}
use balu_todo.Domain.Types.{Task, project_synced, section_synced, task_synced, task_move}
use balu_todo.Domain.Move.{MoveTarget}
use balu_todo.Sync.Replica.{Replica}
use balu_todo.Sync.Apply.Objects.{ApplyContext}
use balu_todo.Sync.Apply.Tasks
use balu_todo.Sync.Apply.Appended.{IsAppended}
use balu_todo.Sync.Client.Mutate.{CommandInput}
use balu_todo.App.Drag.{TaskDrag, DropInfo, has_target, move_target_for}

-- A move that a drop makes.
pub record IsMoveOf (ctx : ApplyContext) (r : Replica) (drag : TaskDrag) (drop : Option DropInfo)
    (input : CommandInput) : Type 0 where
  pub target : MoveTarget
  pub task : Task
  pub command : input.type ≡ task_move
  pub aimed : move_target_for drag drop ≡ some target
  pub found : get drag.task_id r.tasks ≡ some task
  pub alive : task.is_deleted ≡ false
  pub in_live_section : has_target target.section_id (values r.sections) ≡ true
  pub in_live_project : has_target target.project_id (values r.projects) ≡ true
  pub appended :
      task.parent_task_id ≡ none
      → IsAppended drag.task_id target r (Tasks.task_move ctx drag.task_id input.args r)

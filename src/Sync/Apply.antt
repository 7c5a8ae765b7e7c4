-- ===== src/Sync/Apply.antt =====
-- `applyCommand` of packages/sync-client/src/apply.ts: the optimistic effect of each command on the
-- replica.
pub mod Objects
pub mod Projects
pub mod Tasks
pub mod Labels
pub mod Amend
pub mod Keyed
pub mod Cascade
pub mod Filed
pub mod Moved
pub mod Appended
pub mod ProjectFrame
pub mod ProjectCascade
mod Tests
use balu_todo.Prelude.{String, or_else, or_maybe}
use balu_todo.Domain.Types.{
  Args, CommandType, SyncCommand, project_add, project_update, project_delete, section_add,
  section_update, section_delete, task_add, task_update, task_move, task_complete, task_uncomplete,
  task_delete, task_reorder, label_add, label_update, label_delete, comment_add, comment_update,
  comment_delete, attachment_delete,
}
use balu_todo.Sync.Replica.{Replica}
use Objects.{ApplyContext}
use Projects
use Tasks
use Labels

-- cmd.temp_id ?? str(a["id"]) ?? ""
abbrev pub target : SyncCommand → String
target cmd = or_else (or_maybe cmd.temp_id cmd.args.id) ""

-- The `switch` of `applyCommand`.
unfoldable pub dispatch : ApplyContext → String → CommandType → Args → Replica → Replica
dispatch ctx id project_add a r = Projects.project_add ctx id a r
dispatch ctx id project_update a r = Projects.project_update ctx id a r
dispatch ctx id project_delete a r = Projects.project_delete ctx id r
dispatch ctx id section_add a r = Projects.section_add ctx id a r
dispatch ctx id section_update a r = Projects.section_update ctx id a r
dispatch ctx id section_delete a r = Projects.section_delete ctx id r
dispatch ctx id task_add a r = Tasks.task_add ctx id a r
dispatch ctx id task_update a r = Tasks.task_update ctx id a r
dispatch ctx id task_move a r = Tasks.task_move ctx id a r
dispatch ctx id task_complete a r = Tasks.task_complete ctx id a r
dispatch ctx id task_uncomplete a r = Tasks.task_uncomplete ctx id r
dispatch ctx id task_delete a r = Tasks.task_delete ctx id r
dispatch ctx id task_reorder a r = Tasks.task_reorder ctx a r
dispatch ctx id label_add a r = Labels.label_add ctx id a r
dispatch ctx id label_update a r = Labels.label_update ctx id a r
dispatch ctx id label_delete a r = Labels.label_delete ctx id r
dispatch ctx id comment_add a r = Labels.comment_add ctx id a r
dispatch ctx id comment_update a r = Labels.comment_update ctx id a r
dispatch ctx id comment_delete a r = Labels.comment_delete ctx id r
dispatch ctx id attachment_delete a r = Labels.attachment_delete ctx id r

unfoldable pub apply_command : ApplyContext → Replica → SyncCommand → Replica
unfolding dispatch
apply_command ctx r cmd = dispatch ctx (target cmd) cmd.type cmd.args r

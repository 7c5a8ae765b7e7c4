-- ===== src/Sync/Apply/Tests.antt =====
-- Runs of packages/sync-client/src/apply.ts, and instances of the theorems about it.
use balu_todo.Sync.Replica.Stored.{IsKeyedReplica}
use balu_todo.Sync.Samples.{sample, task_of, no_args, sample_ctx, sample-IsKeyedReplica, adding}
use balu_todo.Sync.Apply.{apply_command}
use balu_todo.Sync.Apply.Tasks.{task_move}
use balu_todo.Dict.{get, values}
use balu_todo.Prelude.{refl, some, none}
use balu_todo.Domain.Move.{MoveTarget, move_task_args}
use balu_todo.Sync.Apply.Appended.{IsAppended, args_to, task_move-IsAppended}
use balu_todo.Domain.Types.{Args}
use balu_todo.Sync.Apply.Keyed.{apply_command-IsKeyedReplica}

apply_command-IsKeyedReplica_example :
    IsKeyedReplica (apply_command sample_ctx sample (adding "x" "tmp-1"))
apply_command-IsKeyedReplica_example =
    apply_command-IsKeyedReplica sample_ctx sample (adding "x" "tmp-1") sample-IsKeyedReplica

abbrev to_inbox : Args
to_inbox = record (no_args) { project_id = some none }

-- The target of the move: the Inbox.
abbrev elsewhere : MoveTarget
elsewhere = record { project_id = none; section_id = none }

task_move-IsAppended_example : IsAppended "t" elsewhere sample (
    task_move sample_ctx "t"
      (args_to (task_of "t" (some "p") none) elsewhere (values sample.tasks))
      sample)
unfolding get move_task_args
task_move-IsAppended_example =
    task_move-IsAppended sample_ctx (task_of "t" (some "p") none) elsewhere sample
      (args_to (task_of "t" (some "p") none) elsewhere (values sample.tasks))
      sample-IsKeyedReplica.tasks refl refl refl

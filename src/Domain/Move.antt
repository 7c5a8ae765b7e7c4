-- ===== src/Domain/Move.antt =====
-- packages/domain/src/move.ts: the arguments of a `task_move` into a project or a section.
use balu_todo.Prelude.{
  String, Bool, not, ◌&&◌, ◌==◌, Option, none, some, List, map, filter, same, is_some,
  if◌then◌else◌,
}
use balu_todo.Domain.Types.{Task, Args, no_args}
use balu_todo.Domain.Order.{next_sort_order}

-- A project body, or one of its sections.
pub record MoveTarget : Type 0 where
  pub project_id : Option String
  pub section_id : Option String

abbrev pub in_target : MoveTarget → Task → Bool
in_target target t =
    not t.is_deleted
    && not (is_some t.parent_task_id)
    && same t.project_id target.project_id
    && same t.section_id target.section_id

unfoldable pub container_tasks : List Task → MoveTarget → List Task
container_tasks tasks target = filter (in_target target) tasks

abbrev pub is_there : Task → MoveTarget → Bool
is_there task target =
    same task.project_id target.project_id && same task.section_id target.section_id

-- The tasks of the target but for the moved one.
unfoldable pub siblings_in : Task → MoveTarget → List Task → List Task
unfolding container_tasks
siblings_in task target tasks =
    filter (λ (t : Task). not (t.id == task.id)) (container_tasks tasks target)

unfoldable pub move_task_args : Task → MoveTarget → List Task → Option Args
unfolding siblings_in
move_task_args task target tasks =
    if is_there task target
    then none
    else some (record (no_args) {
      id = some task.id;
      project_id = some target.project_id;
      section_id = some target.section_id;
      sort_order =
          some (next_sort_order (map (λ (t : Task). t.sort_order) (siblings_in task target tasks)));
    })

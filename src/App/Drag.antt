-- ===== src/App/Drag.antt =====
-- apps/web/src/lib/drag.ts: what the drop of a task onto a row, a group or a project does.
pub mod Laws
use balu_todo.Prelude.{
  String, Bool, true, false, not, ◌&&◌, ◌||◌, ◌==◌, Option, none, some, List, [], ◌∷◌, same,
  is_some, or_else, if◌then◌else◌,
}
use balu_todo.Dict.{values}
use balu_todo.Domain.Types.{
  SyncBase, Project, Section, Task, Args, Synced, project_synced, section_synced, task_synced,
  task_move,
}
use balu_todo.Domain.Move.{MoveTarget, move_task_args}
use balu_todo.Sync.Replica.{Replica}
use balu_todo.Sync.Client.Mutate.{CommandInput}

pub record TaskDrag : Type 0 where
  pub task_id : String
  pub group_key : String
  pub origin : MoveTarget

pub data DropType : Type 0 where
  task_row group project : DropType

pub record DropInfo : Type 0 where
  pub type : DropType
  pub group_key : Option String
  pub task_id : Option String
  pub project_id : Option String
  pub move : Option MoveTarget

abbrev pub is_project : DropType → Bool
is_project project = true
is_project t = false

-- A container of another group.
abbrev pub other_group : TaskDrag → DropInfo → Option MoveTarget
other_group drag drop = if same drop.group_key (some drag.group_key) then none else drop.move

unfoldable pub move_target_for : TaskDrag → Option DropInfo → Option MoveTarget
move_target_for drag none = none
move_target_for drag (some drop) =
    if is_project drop.type
    then some (record { project_id = drop.project_id; section_id = none })
    else other_group drag drop

abbrev pub onto_project : Option DropInfo → Bool
onto_project none = false
onto_project (some drop) = is_project drop.type

unfoldable pub is_no_op_move : TaskDrag → Option DropInfo → MoveTarget → Bool
is_no_op_move drag drop target =
    (onto_project drop && same target.project_id drag.origin.project_id)
    || (same drag.origin.project_id target.project_id
        && same drag.origin.section_id target.section_id)

-- The parts of the snapshot that a drop looks at.
pub record Snapshot : Type 0 where
  pub projects : List Project
  pub sections : List Section
  pub tasks : List Task

abbrev pub build_snapshot : Replica → Snapshot
build_snapshot r = record {
  projects = values r.projects;
  sections = values r.sections;
  tasks = values r.tasks;
}

unfoldable pub find_task : String → List Task → Option Task
find_task id [] = none
find_task id (t ∷ tasks) = if t.id == id then some t else find_task id tasks

module _ {A : Type 0} ⦃s : Synced A⦄ where
  -- `list.some((x) => x.id === id && !x.is_deleted)`
  unfoldable pub has_live : String → List A → Bool
  has_live id [] = false
  has_live id (x ∷ xs) = ((s.base x).id == id && not (s.base x).is_deleted) || has_live id xs

  -- The id is null, or that of a live object.
  abbrev pub has_target : Option String → List A → Bool
  has_target none xs = true
  has_target (some id) xs = has_live id xs

abbrev pub is_dead : Option Task → Bool
is_dead none = true
is_dead (some t) = t.is_deleted

unfoldable pub is_stale_move : TaskDrag → MoveTarget → Snapshot → Bool
unfolding find_task has_live
is_stale_move drag target snapshot =
    is_dead (find_task drag.task_id snapshot.tasks)
    || not (has_target target.section_id snapshot.sections)
    || not (has_target target.project_id snapshot.projects)

-- What a drop does: whether it is consumed, the edit that it makes, and whether it shows that the
-- target is gone.
pub record DropOutcome : Type 0 where
  pub consumed : Bool
  pub edit : Option CommandInput
  pub stale : Bool

abbrev pub nothing : Bool → DropOutcome
nothing consumed = record { consumed = consumed; edit = none; stale = false }

abbrev pub edit_with : Option Args → DropOutcome
edit_with none = nothing true
edit_with (some args) = record {
  consumed = true;
  edit = some (record { type = task_move; temp_id = none; args = args });
  stale = false;
}

abbrev pub move_found : Option Task → MoveTarget → List Task → DropOutcome
move_found none target tasks = nothing true
move_found (some task) target tasks = edit_with (move_task_args task target tasks)

abbrev pub move_onto : TaskDrag → Option DropInfo → Snapshot → Option MoveTarget → DropOutcome
move_onto drag drop snapshot none = nothing false
move_onto drag drop snapshot (some target) =
    if is_no_op_move drag drop target
    then nothing true
    else if is_stale_move drag target snapshot
    then record { consumed = true; edit = none; stale = true }
    else move_found (find_task drag.task_id snapshot.tasks) target snapshot.tasks

unfoldable pub apply_move_drop : Option TaskDrag → Option DropInfo → Snapshot → DropOutcome
unfolding move_target_for is_no_op_move is_stale_move find_task
apply_move_drop none drop snapshot = nothing false
apply_move_drop (some drag) drop snapshot = move_onto drag drop snapshot (move_target_for drag drop)

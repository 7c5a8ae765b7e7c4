-- ===== src/Sync/Apply/Tasks.antt =====
-- The task commands of packages/sync-client/src/apply.ts.
use balu_todo.Prelude.{
  String, Bool, false, ◌&&◌, ◌||◌, not, Option, none, some, List, [], ◌∷◌, map, ◌==◌, same, or_else,
  filter, if◌then◌else◌,
}
use balu_todo.Dict.{Dict, get, set, values, each}
use balu_todo.Domain.Types.{Task, Args, Placement, task_synced, comment_synced, attachment_synced}
use balu_todo.Domain.Order.{next_sort_order}
use balu_todo.Sync.Replica.{Replica}
use balu_todo.Sync.Recurrence.{Rolled, roll_forward, utc_offset_minutes}
use balu_todo.Sync.Apply.Objects.{ApplyContext, new_base, touch, remove, remove_if, patched, amend}
use balu_todo.Sync.Apply.Projects.{comment_of, attachment_of}

pub record Container : Type 0 where
  pub project_id : Option String
  pub section_id : Option String
  pub parent_task_id : Option String

-- `ref ? tasks.get(ref) : undefined`: an empty text is falsy.
unfoldable pub find_parent : Option String → Dict Task → Option Task
find_parent none m = none
find_parent (some p) m = if p == "" then none else get p m

-- A subtask follows its live parent.
abbrev pub follow : Option Task → Container → Container
follow none c = c
follow (some p) c =
    if p.is_deleted then c else record c { project_id = p.project_id; section_id = p.section_id }

unfoldable pub container_of : Args → Dict Task → Container
unfolding find_parent
container_of a m =
    let parent = or_else a.parent_task_id none in
    follow (find_parent parent m) (record {
      project_id = or_else a.project_id none;
      section_id = or_else a.section_id none;
      parent_task_id = parent;
    })

abbrev pub in_container : Container → Task → Bool
in_container c t =
    not t.is_deleted
    && same t.parent_task_id c.parent_task_id
    && same t.project_id c.project_id
    && same t.section_id c.section_id

module _ (ctx : ApplyContext) (id : String) where
  unfoldable pub task_add : Args → Replica → Replica
  unfolding container_of
  task_add a r =
      let someday = or_else a.someday false in
      let container = container_of a r.tasks in
      let siblings = filter (in_container container) (values r.tasks) in
      let task : Task = record {
        base = new_base ctx id;
        project_id = container.project_id;
        section_id = container.section_id;
        parent_task_id = container.parent_task_id;
        title = or_else a.title "";
        notes = or_else a.notes "";
        start_date = if someday then none else or_else a.start_date none;
        evening = or_else a.evening false;
        someday = someday;
        deadline = or_else a.deadline none;
        reminder_at = or_else a.reminder_at none;
        recurrence = or_else a.recurrence none;
        priority = or_else a.priority 0;
        label_ids = or_else a.label_ids [];
        assigned_to = or_else a.assigned_to none;
        sort_order = or_else a.sort_order (next_sort_order (map (λ t. t.sort_order) siblings));
        completed_at = none;
        completed_by = none;
        created_by = ctx.user_id;
      } in
      record r { tasks = set id task r.tasks }

  unfoldable pub patch_task : Args → Task → Task
  patch_task a t = record t {
    title = patched a.title t.title;
    notes = patched a.notes t.notes;
    start_date = patched a.start_date t.start_date;
    evening = patched a.evening t.evening;
    someday = patched a.someday t.someday;
    deadline = patched a.deadline t.deadline;
    reminder_at = patched a.reminder_at t.reminder_at;
    recurrence = patched a.recurrence t.recurrence;
    priority = patched a.priority t.priority;
    label_ids = patched a.label_ids t.label_ids;
    assigned_to = patched a.assigned_to t.assigned_to;
  }

  abbrev pub undate : Task → Task
  undate t = if t.someday then record t { start_date = none } else t

  unfoldable pub task_update : Args → Replica → Replica
  unfolding patch_task
  task_update a r = record r {
    tasks = amend id (λ t. touch ctx.now (undate (patch_task a t))) r.tasks;
  }

  -- `a.parent_task_id != null && str(a.parent_task_id) === t.id`
  abbrev pub own_parent : Args → Task → Bool
  own_parent a t = same (or_else a.parent_task_id none) (some t.id)

  -- The patch of `task_move`: a new project without a section clears the section.
  unfoldable pub patch_move : Args → Task → Task
  patch_move a t = record t {
    project_id = patched a.project_id t.project_id;
    section_id = elim a.section_id [
      | some s ↦ s
      | none ↦ elim a.project_id [ some p ↦ none | none ↦ t.section_id ]
    ];
    parent_task_id = patched a.parent_task_id t.parent_task_id;
    sort_order = patched a.sort_order t.sort_order;
  }

  -- The loop over the subtasks of a moved parent.
  unfoldable pub follow_moved : Task → Task → Task
  follow_moved t st =
      if same st.parent_task_id (some t.id)
        && not st.is_deleted
        && (not (same st.project_id t.project_id) || not (same st.section_id t.section_id))
      then touch ctx.now (record st { project_id = t.project_id; section_id = t.section_id })
      else st

  -- The moved task goes to its parent's container, or takes its subtasks to its own.
  unfoldable pub settle : Task → Dict Task → Dict Task
  unfolding find_parent follow_moved
  settle t m = elim (find_parent t.parent_task_id m) [
    | some p ↦
        set id (touch ctx.now (record t { project_id = p.project_id; section_id = p.section_id })) m
    | none ↦ set id (touch ctx.now t) (each (follow_moved t) m)
  ]

  unfoldable pub move_task : Args → Option Task → Dict Task → Dict Task
  unfolding patch_move settle
  move_task a none m = m
  move_task a (some t) m =
      if own_parent a t then m else (let t' = patch_move a t in settle t' (set id t' m))

  unfoldable pub task_move : Args → Replica → Replica
  unfolding move_task
  task_move a r = record r { tasks = move_task a (get id r.tasks) r.tasks }

  abbrev pub rolled_task : Option Rolled → Task → Task
  rolled_task none t = t
  rolled_task (some rolled) t = record t {
    start_date = rolled.start_date;
    deadline = rolled.deadline;
    reminder_at = rolled.reminder_at;
  }

  abbrev pub completed : Task → Task
  completed t = record t { completed_at = some ctx.now; completed_by = some ctx.user_id }

  unfoldable pub roll : Args → Task → String → Task
  roll a t rrule =
      rolled_task
        (roll_forward rrule t.start_date t.deadline t.reminder_at (or_else a.today ctx.today)
          (utc_offset_minutes a.utc_offset))
        t

  -- `if (t.recurrence)`: an empty text is falsy.
  unfoldable pub complete : Args → Task → Task
  unfolding roll
  complete a t = elim t.recurrence [
    | none ↦ completed t
    | some rrule ↦ if rrule == "" then completed t else roll a t rrule
  ]

  unfoldable pub task_complete : Args → Replica → Replica
  unfolding complete
  task_complete a r = record r { tasks = amend id (λ t. touch ctx.now (complete a t)) r.tasks }

  abbrev pub reopened : Task → Task
  reopened t = record t { completed_at = none; completed_by = none }

  unfoldable pub task_uncomplete : Replica → Replica
  task_uncomplete r = record r { tasks = amend id (λ t. touch ctx.now (reopened t)) r.tasks }

  abbrev pub subtask : Task → Bool
  subtask t = same t.parent_task_id (some id)

  unfoldable pub task_delete : Replica → Replica
  task_delete r =
      let tasks = amend id (remove ctx.now) r.tasks in
      let dead = id ∷ map (λ (t : Task). t.id) (filter subtask (values tasks)) in
      record r {
        tasks = each (remove_if subtask ctx.now) tasks;
        comments = each (remove_if (comment_of dead) ctx.now) r.comments;
        attachments = each (remove_if (attachment_of dead) ctx.now) r.attachments;
      }

module _ (ctx : ApplyContext) where
  -- One item of a `task_reorder`: a deleted or unknown task is skipped.
  unfoldable pub place : Placement → Dict Task → Dict Task
  place it m =
      amend {A = Task} it.id
        (λ t. if t.is_deleted then t else touch ctx.now (record t { sort_order = it.sort_order })) m

  unfoldable pub place_all : List Placement → Dict Task → Dict Task
  unfolding place
  place_all [] m = m
  place_all (it ∷ items) m = place_all items (place it m)

  unfoldable pub task_reorder : Args → Replica → Replica
  unfolding place_all
  task_reorder a r = record r { tasks = place_all (or_else a.items []) r.tasks }

-- ===== src/Domain/Projects.antt =====
-- packages/domain/src/projects.ts: which projects and tasks are shown where.
pub mod Archived
use balu_todo.Prelude.{
  String, Bool, true, false, not, ◌&&◌, Option, none, some, List, [], ◌∷◌, map, filter, member,
  is_some, if◌then◌else◌,
}
use balu_todo.Prelude.Int.{ℤ}
use balu_todo.Prelude.Sort.{sort}
use balu_todo.Prelude.Compare.{◌-ℤ◌}
use balu_todo.Dict.{Dict, get, set}
use balu_todo.Domain.Types.{Project, Task}
use balu_todo.Domain.Order.{next_sort_order}

abbrev pub by_sort : Project → Project → ℤ
by_sort a b = a.sort_order -ℤ b.sort_order

abbrev pub is_active : Project → Bool
is_active p = not p.is_deleted && not (is_some p.archived_at)

abbrev pub is_archived : Project → Bool
is_archived p = not p.is_deleted && is_some p.archived_at

unfoldable pub active_projects : List Project → List Project
active_projects projects = sort by_sort (filter is_active projects)

unfoldable pub archived_projects : List Project → List Project
archived_projects projects = sort by_sort (filter is_archived projects)

unfoldable pub archived_project_ids : List Project → List String
archived_project_ids projects = map (λ (p : Project). p.id) (filter is_archived projects)

-- `parent?.project_id ?? null`
abbrev pub project_of : Option Task → Option String
project_of none = none
project_of (some p) = p.project_id

-- `tasksById.get(t.parent_task_id)`, where there is a parent.
abbrev pub parent_in : Option String → Dict Task → Option Task
parent_in none tasks_by_id = none
parent_in (some id) tasks_by_id = get id tasks_by_id

unfoldable pub effective_project_id : Task → Dict Task → Option String
effective_project_id t tasks_by_id = elim t.project_id [
  | some p ↦ some p
  | none ↦ project_of (parent_in t.parent_task_id tasks_by_id)
]

-- `new Map(tasks.map((t) => [t.id, t]))`
unfoldable pub add_by_id : Dict Task → List Task → Dict Task
add_by_id m [] = m
add_by_id m (t ∷ tasks) = add_by_id (set t.id t m) tasks

unfoldable pub by_id : List Task → Dict Task
unfolding add_by_id
by_id tasks = add_by_id [] tasks

-- `pid == null || !archived.has(pid)`
abbrev pub outside : List String → Option String → Bool
outside archived none = true
outside archived (some id) = not (member id archived)

-- The `filter`, with the shortcut for `archived.size === 0`.
abbrev pub outside_of : List String → List Task → List Task
outside_of [] tasks = tasks
outside_of (id ∷ ids) tasks =
    filter (λ t. outside (id ∷ ids) (effective_project_id t (by_id tasks))) tasks

unfoldable pub exclude_archived_project_tasks : List Task → List Project → List Task
unfolding archived_project_ids by_id effective_project_id
exclude_archived_project_tasks tasks projects = outside_of (archived_project_ids projects) tasks

unfoldable pub next_project_sort_order : List Project → ℤ
next_project_sort_order projects =
    next_sort_order
      (map (λ (p : Project). p.sort_order) (filter (λ (p : Project). not p.is_deleted) projects))

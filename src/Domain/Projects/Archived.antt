-- ===== src/Domain/Projects/Archived.antt =====
-- The tasks of archived projects (packages/domain/src/projects.ts).
use balu_todo.Prelude.{
  String, Bool, ◌≡◌, refl, sym, ap, ◌∙◌, true, false, not, ◌&&◌, ◌||◌, ◌==◌, Bool-cases, inl, inr,
  is_some, or_maybe, member, if◌then◌else◌, Option, none, some, List, [], ◌∷◌, filter, arith,
}
use balu_todo.Dict.{Dict, get, set}
use balu_todo.Dict.Laws.{get-set}
use balu_todo.Domain.Types.{Project, Task}
use balu_todo.Domain.Projects.{
  outside, outside_of, archived_project_ids, add_by_id, project_of, is_archived, by_id,
  effective_project_id, exclude_archived_project_tasks,
}

-- A live archived project has the id.
abbrev pub is_put_away : List Project → String → Bool
is_put_away [] id = false
is_put_away (p ∷ projects) id =
    (p.id == id && not p.is_deleted && is_some p.archived_at) || is_put_away projects id

-- The last task of the list with the id.
abbrev pub last_with : String → List Task → Option Task
last_with id [] = none
last_with id (t ∷ tasks) = or_maybe (last_with id tasks) (if t.id == id then some t else none)

abbrev project_in : Option Task → Option String
project_in none = none
project_in (some t) = t.project_id

-- The project of a task, or without one that of its parent.
abbrev pub home : List Task → Option String → Option String → Option String
home tasks (some p) parent = some p
home tasks none none = none
home tasks none (some q) = project_in (last_with q tasks)

abbrev pub is_kept : List Project → Option String → Bool
is_kept projects none = true
is_kept projects (some p) = not (is_put_away projects p)

-- The tasks whose home is no archived project.
abbrev pub shown : List Task → List Project → List Task
shown tasks projects =
    filter (λ t. is_kept projects (home tasks t.project_id t.parent_task_id)) tasks

member-is_put_away :
    (projects : List Project) (id : String)
    → member id (archived_project_ids projects) ≡ is_put_away projects id
unfolding archived_project_ids
member-is_put_away [] id = refl
member-is_put_away (p ∷ projects) id = elim (Bool-cases (is_archived p)) [
  | inl q ↦ rw q (ground (arith, member-is_put_away projects id, q))
  | inr q ↦ rw q (ground (arith, member-is_put_away projects id, q))
]

or_maybe-if :
    (o : Option Task) (b : Bool) (t : Task) (d : Option Task)
    → or_maybe o (if b then some t else d) ≡ or_maybe (or_maybe o (if b then some t else none)) d
or_maybe-if none true t d = refl
or_maybe-if none false t d = refl
or_maybe-if (some x) b t d = refl

get-add_by_id :
    (id : String) (m : Dict Task) (tasks : List Task)
    → get id (add_by_id m tasks) ≡ or_maybe (last_with id tasks) (get id m)
unfolding add_by_id
get-add_by_id id m [] = refl
get-add_by_id id m (t ∷ tasks) =
    get-add_by_id id (set t.id t m) tasks
    ∙ ap (or_maybe (last_with id tasks)) (get-set id t.id t m)
    ∙ or_maybe-if (last_with id tasks) (t.id == id) t (get id m)

or_maybe-none : (o : Option Task) → or_maybe o none ≡ o
or_maybe-none none = refl
or_maybe-none (some x) = refl

found : (tasks : List Task) (q : String) → get q (by_id tasks) ≡ last_with q tasks
unfolding by_id get
found tasks q = get-add_by_id q [] tasks ∙ or_maybe-none (last_with q tasks)

project_in-project_of : (o : Option Task) → project_of o ≡ project_in o
project_in-project_of none = refl
project_in-project_of (some t) = refl

-- The home, where the code looks it up.
home_by :
    (tasks : List Task) (t : Task) (p parent : Option String)
    → t.project_id ≡ p
    → t.parent_task_id ≡ parent
    → effective_project_id t (by_id tasks) ≡ home tasks p parent
unfolding effective_project_id
home_by tasks t (some p) parent e f = rw e
home_by tasks t none none e f = rw (e, f)
home_by tasks t none (some q) e f =
    rw (e, f) (ap project_of (found tasks q) ∙ project_in-project_of (last_with q tasks))

outside-is_kept :
    (projects : List Project) (p : Option String)
    → outside (archived_project_ids projects) p ≡ is_kept projects p
outside-is_kept projects none = refl
outside-is_kept projects (some id) = ap not (member-is_put_away projects id)

-- The filters of the code and of `shown`, over any part of the tasks.
filters_agree :
    (tasks part : List Task) (projects : List Project)
    → filter
        (λ t. outside (archived_project_ids projects) (effective_project_id t (by_id tasks)))
        part
      ≡ filter (λ t. is_kept projects (home tasks t.project_id t.parent_task_id)) part
filters_agree tasks [] projects = refl
filters_agree tasks (t ∷ part) projects =
    let same_test : outside (archived_project_ids projects) (effective_project_id t (by_id tasks))
        ≡ is_kept projects (home tasks t.project_id t.parent_task_id) =
      ap (outside (archived_project_ids projects))
        (home_by tasks t t.project_id t.parent_task_id refl refl)
      ∙ outside-is_kept projects (home tasks t.project_id t.parent_task_id) in
    rw (same_test, filters_agree tasks part projects)

outside-nil : (p : Option String) → outside [] p ≡ true
outside-nil none = refl
outside-nil (some id) = refl

filter_true :
    (p : Task → Option String) (tasks : List Task) → filter (λ t. outside [] (p t)) tasks ≡ tasks
filter_true p [] = refl
filter_true p (t ∷ tasks) = rw (outside-nil (p t)) (ap (λ l. t ∷ l) (filter_true p tasks))

outside_of-filter :
    (archived : List String) (tasks : List Task)
    → outside_of archived tasks
      ≡ filter (λ t. outside archived (effective_project_id t (by_id tasks))) tasks
outside_of-filter [] tasks = sym (filter_true (λ t. effective_project_id t (by_id tasks)) tasks)
outside_of-filter (id ∷ ids) tasks = refl

-- Leaving out the tasks of archived projects gives, in their order, exactly the tasks whose home is not
-- a live archived project: the project of the task or, if it has none, that of its parent, which is the
-- last task of the list with the parent's id.
pub exclude_archived_project_tasks-shown :
    (tasks : List Task) (projects : List Project)
    → exclude_archived_project_tasks tasks projects ≡ shown tasks projects
unfolding exclude_archived_project_tasks
exclude_archived_project_tasks-shown tasks projects =
    outside_of-filter (archived_project_ids projects) tasks ∙ filters_agree tasks tasks projects

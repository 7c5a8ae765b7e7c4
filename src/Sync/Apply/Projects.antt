-- ===== src/Sync/Apply/Projects.antt =====
-- The project and section commands of packages/sync-client/src/apply.ts.
use balu_todo.Prelude.{
  String, Bool, false, ◌&&◌, not, none, some, List, [], ◌∷◌, map, ◌==◌, same, or_else, filter,
  member, if◌then◌else◌,
}
use balu_todo.Dict.{Dict, set, values, each}
use balu_todo.Domain.Types.{
  Project, Section, Task, Comment, Attachment, Args, project_synced, section_synced, task_synced,
  comment_synced, attachment_synced,
}
use balu_todo.Domain.Order.{next_sort_order}
use balu_todo.Sync.Replica.{Replica}
use balu_todo.Sync.Apply.Objects.{ApplyContext, new_base, touch, remove, remove_if, patched, amend}

module _ (ctx : ApplyContext) (id : String) where
  unfoldable pub project_add : Args → Replica → Replica
  project_add a r =
      let siblings = filter (λ (p : Project). not p.is_deleted) (values r.projects) in
      let project : Project = record {
        base = new_base ctx id;
        name = or_else a.name "";
        color = or_else a.color "slate";
        sort_order = or_else a.sort_order (next_sort_order (map (λ p. p.sort_order) siblings));
        archived_at = none;
      } in
      record r { projects = set id project r.projects }

  unfoldable pub patch_project : Args → Project → Project
  patch_project a p = touch ctx.now (record p {
    name = patched a.name p.name;
    color = patched a.color p.color;
    sort_order = patched a.sort_order p.sort_order;
    archived_at = patched a.archived_at p.archived_at;
  })

  unfoldable pub project_update : Args → Replica → Replica
  unfolding patch_project
  project_update a r = record r { projects = amend id (patch_project a) r.projects }

  abbrev pub in_project : Task → Bool
  in_project t = same t.project_id (some id)

-- A live task whose parent is among `dead`.
abbrev pub is_orphan : List String → Task → Bool
is_orphan dead t = elim t.parent_task_id [
  | none ↦ false
  | some p ↦ member p dead && not t.is_deleted
]

-- The second loop over the tasks: the set grows while the loop runs.
unfoldable pub orphan_pass : String → List String → Dict Task → List String × Dict Task
orphan_pass now dead [] = (dead, [])
orphan_pass now dead ((k, t) ∷ m) =
    let hit = is_orphan dead t in
    let (dead', m') = orphan_pass now (if hit then t.id ∷ dead else dead) m in
    (dead', (k, remove_if (λ x. hit) now t) ∷ m')

abbrev pub comment_of : List String → Comment → Bool
comment_of dead c = member c.task_id dead && not c.is_deleted

abbrev pub attachment_of : List String → Attachment → Bool
attachment_of dead at = member at.task_id dead && not at.is_deleted

module _ (ctx : ApplyContext) (id : String) where
  unfoldable pub project_delete : Replica → Replica
  unfolding orphan_pass
  project_delete r =
      let tasks = each (remove_if (in_project ctx id) ctx.now) r.tasks in
      let direct = map (λ (t : Task). t.id) (filter (in_project ctx id) (values r.tasks)) in
      let (dead, tasks') = orphan_pass ctx.now direct tasks in
      record r {
        projects = amend id (remove ctx.now) r.projects;
        sections = each (remove_if (λ s. s.project_id == id) ctx.now) r.sections;
        tasks = tasks';
        comments = each (remove_if (comment_of dead) ctx.now) r.comments;
        attachments = each (remove_if (attachment_of dead) ctx.now) r.attachments;
      }

  unfoldable pub section_add : Args → Replica → Replica
  section_add a r =
      let project_id = or_else a.project_id none in
      let siblings =
        filter (λ (s : Section). same (some s.project_id) project_id && not s.is_deleted)
          (values r.sections) in
      let section : Section = record {
        base = new_base ctx id;
        project_id = or_else project_id "";
        name = or_else a.name "";
        sort_order = or_else a.sort_order (next_sort_order (map (λ s. s.sort_order) siblings));
      } in
      record r { sections = set id section r.sections }

  unfoldable pub patch_section : Args → Section → Section
  patch_section a s =
      touch ctx.now
        (record s { name = patched a.name s.name; sort_order = patched a.sort_order s.sort_order })

  unfoldable pub section_update : Args → Replica → Replica
  unfolding patch_section
  section_update a r = record r { sections = amend id (patch_section a) r.sections }

  -- A task of the section goes to the body of its project.
  unfoldable pub leave_section : Task → Task
  leave_section t =
      if same t.section_id (some id) then touch ctx.now (record t { section_id = none }) else t

  unfoldable pub section_delete : Replica → Replica
  unfolding leave_section
  section_delete r = record r {
    sections = amend id (remove ctx.now) r.sections;
    tasks = each leave_section r.tasks;
  }

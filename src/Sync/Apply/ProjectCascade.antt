-- ===== src/Sync/Apply/ProjectCascade.antt =====
-- The cascade of `project_delete` of packages/sync-client/src/apply.ts.
use balu_todo.Prelude.{
  String, ◌≡◌, ◌≢◌, ◌⊎◌, true, false, some, List, ◌∷◌, map, if◌then◌else◌, filter, Bool, All,
}
use balu_todo.Dict.{Dict, get, each, values}
use balu_todo.Domain.Types.{
  Project, Section, Task, Comment, Attachment, project_synced, section_synced, task_synced,
  comment_synced, attachment_synced,
}
use balu_todo.Sync.Replica.{Replica}
use balu_todo.Sync.Replica.Stored.{IsKeyed}
use balu_todo.Sync.Apply.Objects.{ApplyContext, remove_if}
use balu_todo.Sync.Apply.Projects.{is_orphan, in_project}
use balu_todo.Sync.Apply.ProjectFrame.{is_clear}

-- The set as it grows at one task.
abbrev grown : List String → Task → List String
grown dead x = if is_orphan dead x then x.id ∷ dead else dead

-- A task of the project, or a live subtask of one.
abbrev pub InProject : String → Replica → String → Type 0
InProject id r k =
    (t : Task) × (get k r.tasks ≡ some t)
    × ((t.project_id ≡ some id)
        ⊎ ((p : String) × (parent : Task) × (t.parent_task_id ≡ some p)
            × (get p r.tasks ≡ some parent)
            × (parent.project_id ≡ some id)
            × (t.is_deleted ≡ false)))

-- What `project_delete` promises, of the replica `r'` that it makes of `r`.
pub record IsProjectDeleted (id : String) (r r' : Replica) : Type 0 where
  pub project : (p : Project) → get id r'.projects ≡ some p → p.is_deleted ≡ true
  pub other_projects : (k : String) → k ≢ id → get k r'.projects ≡ get k r.projects
  pub sections :
      (k : String) (s : Section)
      → get k r'.sections ≡ some s
      → s.project_id ≡ id
      → s.is_deleted ≡ true
  pub tasks :
      (k : String) (t : Task) → InProject id r k → get k r'.tasks ≡ some t → t.is_deleted ≡ true
  pub comments :
      (k : String) (c : Comment)
      → InProject id r c.task_id
      → get k r'.comments ≡ some c
      → c.is_deleted ≡ true
  pub attachments :
      (k : String) (c : Attachment)
      → InProject id r c.task_id
      → get k r'.attachments ≡ some c
      → c.is_deleted ≡ true
  pub other_sections :
      (k : String) (s : Section)
      → get k r.sections ≡ some s
      → s.project_id ≢ id
      → get k r'.sections ≡ some s
  pub other_tasks :
      (outside : String → Bool)
      → All (λ t. is_clear id outside t ≡ true) (values r.tasks)
      → (k : String) (t : Task) → get k r.tasks ≡ some t
      → outside k ≡ true
      → get k r'.tasks ≡ some t
  pub other_comments :
      (outside : String → Bool)
      → All (λ t. is_clear id outside t ≡ true) (values r.tasks)
      → (k : String) (c : Comment) → get k r.comments ≡ some c
      → outside c.task_id ≡ true
      → get k r'.comments ≡ some c
  pub other_attachments :
      (outside : String → Bool)
      → All (λ t. is_clear id outside t ≡ true) (values r.tasks)
      → (k : String) (c : Attachment) → get k r.attachments ≡ some c
      → outside c.task_id ≡ true
      → get k r'.attachments ≡ some c

module _ (ctx : ApplyContext) (id : String) (r : Replica) (keyed : IsKeyed r.tasks) where
  direct : List String
  direct = map (λ (t : Task). t.id) (filter (in_project ctx id) (values r.tasks))

  first_pass : Dict Task
  first_pass = each (remove_if (in_project ctx id) ctx.now) r.tasks

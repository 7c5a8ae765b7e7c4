-- ===== src/Sync/Apply/Cascade.antt =====
-- The cascade of `task_delete` of packages/sync-client/src/apply.ts.
use mathlib.Core.Option
use balu_todo.Prelude.{
  String, ◌≡◌, ◌⊎◌, inl, inr, Bool, true, some, List, [], ◌∷◌, map, arith, ◌==◌, eq_refl,
  Bool-cases, member, filter,
}
use balu_todo.Dict.{Dict, get, each, values}
use balu_todo.Dict.Laws.{get-each}
use balu_todo.Domain.Types.{
  Task, Comment, Attachment, task_synced, comment_synced, attachment_synced,
}
use balu_todo.Sync.Replica.{Replica}
use balu_todo.Sync.Replica.Stored.{IsKeyed}
use balu_todo.Sync.Apply.Objects.{ApplyContext, remove, remove_if, amend}
use balu_todo.Sync.Apply.Projects.{comment_of, attachment_of}
use balu_todo.Sync.Apply.Tasks.{subtask}

-- The ids of the selected tasks hold the id of each task that is selected.
pub member-ids :
    (p : Task → Bool) (k : String) (t : Task) (m : Dict Task)
    → get k m ≡ some t
    → p t ≡ true
    → member t.id (map (λ (x : Task). x.id) (filter p (values m))) ≡ true
unfolding get values
member-ids p k t [] e h = cc
member-ids p k t ((j, x) ∷ m) e h = elim (Bool-cases (j == k)) [
  | inl q ↦ let here : x ≡ t = let e' : some x ≡ some t = rw q at e in cc in rw (here, h, eq_refl)
  | inr q ↦ elim (Bool-cases (p x)) [
    | inl w ↦ ground (arith, member-ids p k t m (rw q at e) h)
    | inr w ↦ rw w (member-ids p k t m (rw q at e) h)
  ]
]

-- What `task_delete` promises, of the replica `r'` that it makes of `r`. A task belongs to the
-- deleted one if it is that task or one of its subtasks.
abbrev pub Belongs : String → Replica → String → Type 0
Belongs id r p = (p ≡ id) ⊎ ((t : Task) × (get p r.tasks ≡ some t) × (t.parent_task_id ≡ some id))

pub record IsFamilyDeleted (id : String) (r r' : Replica) : Type 0 where
  pub tasks :
      (k : String) (t : Task) → Belongs id r k → get k r'.tasks ≡ some t → t.is_deleted ≡ true
  pub other_tasks : (k : String) → ¬ (Belongs id r k) → get k r'.tasks ≡ get k r.tasks
  pub comments :
      (k : String) (c : Comment)
      → Belongs id r c.task_id
      → get k r'.comments ≡ some c
      → c.is_deleted ≡ true
  pub other_comments :
      (k : String) (c : Comment)
      → ¬ (Belongs id r c.task_id)
      → get k r.comments ≡ some c
      → get k r'.comments ≡ some c
  pub attachments :
      (k : String) (c : Attachment)
      → Belongs id r c.task_id
      → get k r'.attachments ≡ some c
      → c.is_deleted ≡ true
  pub other_attachments :
      (k : String) (c : Attachment)
      → ¬ (Belongs id r c.task_id)
      → get k r.attachments ≡ some c
      → get k r'.attachments ≡ some c

-- The loops over the comments and over the attachments, given what the set of dead tasks holds.
module _ (dead : List String) (now : String) where
  pub comments_deleted :
      (k : String) (m : Dict Comment) (c : Comment)
      → member c.task_id dead ≡ true
      → get k (each (remove_if (comment_of dead) now) m) ≡ some c
      → c.is_deleted ≡ true
  comments_deleted k m c h e = ground (arith, get-each (remove_if (comment_of dead) now) k m, e)

  pub attachments_deleted :
      (k : String) (m : Dict Attachment) (c : Attachment)
      → member c.task_id dead ≡ true
      → get k (each (remove_if (attachment_of dead) now) m) ≡ some c
      → c.is_deleted ≡ true
  attachments_deleted k m c h e =
      ground (arith, get-each (remove_if (attachment_of dead) now) k m, e)

module _ (ctx : ApplyContext) (id : String) (r : Replica) (keyed : IsKeyed r.tasks) where
  -- The set `deletedIds` of the source.
  dead_ids : List String
  dead_ids =
      id
      ∷ map (λ (t : Task). t.id)
          (filter (subtask ctx id) (values (amend id (remove ctx.now) r.tasks)))

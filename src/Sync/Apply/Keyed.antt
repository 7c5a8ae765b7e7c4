-- ===== src/Sync/Apply/Keyed.antt =====
-- The keys of the replica after each command of packages/sync-client/src/apply.ts.
use balu_todo.Prelude.{
  String, ◌≡◌, refl, sym, ap, ◌∙◌, Bool, Option, none, some, List, [], ◌∷◌, arith, if◌then◌else◌,
  Bool-cases, inl, inr, or_else,
}
use balu_todo.Dict.{Dict, get, set, each}
use balu_todo.Domain.Types
use balu_todo.Domain.Types.{
  Project, Section, Task, Label, Comment, Attachment, Args, Placement, CommandType, SyncCommand,
  Synced, project_synced, section_synced, task_synced, label_synced, comment_synced,
  attachment_synced, member_synced, project_add, project_update, project_delete, section_add,
  section_update, section_delete, task_add, task_update, task_move, task_complete, task_uncomplete,
  task_delete, task_reorder, label_add, label_update, label_delete, comment_add, comment_update,
  comment_delete, attachment_delete,
}
use balu_todo.Sync.Replica.Stored.{IsKeyedReplica, Fresh, IsKeyed, IsKeyed-set, IsKeyed-each}
use balu_todo.Sync.Apply.Objects.{ApplyContext, touch, remove_if}
use balu_todo.Sync.Apply.Projects
use balu_todo.Sync.Apply.Projects.{is_orphan, orphan_pass}
use balu_todo.Sync.Apply.Tasks
use balu_todo.Sync.Apply.Tasks.{find_parent, settle, follow_moved, place, place_all}
use balu_todo.Sync.Apply.Labels
use balu_todo.Sync.Apply.Amend.{IsKeyed-amend, id_of_get}
use balu_todo.Sync.Replica.{Replica}
use balu_todo.Sync.Apply.{dispatch, target, apply_command}

module _ {A : Type 0} ⦃s : Synced A⦄
    (laws : (b : Types.SyncBase) (x : A) → s.base (s.set_base b x) ≡ b) where
  id-remove_if :
      (test : A → Bool) (now : String) (x : A) → (s.base (remove_if test now x)).id ≡ (s.base x).id
  id-remove_if test now x = elim (Bool-cases (test x)) [
    | inl e ↦ rw e (ap (λ (b : Types.SyncBase). b.id) (laws _ x))
    | inr e ↦ rw e
  ]

Fresh-orphan_pass :
    (k now : String) (dead : List String) (m : Dict Task)
    → Fresh k m
    → Fresh k (orphan_pass now dead m).1
unfolding orphan_pass
Fresh-orphan_pass k now dead [] h = tt
Fresh-orphan_pass k now dead ((j, t) ∷ m) (p, h) =
    (p, Fresh-orphan_pass k now (if is_orphan dead t then t.id ∷ dead else dead) m h)

IsKeyed-orphan_pass :
    (now : String) (dead : List String) (m : Dict Task)
    → IsKeyed m
    → IsKeyed (orphan_pass now dead m).1
unfolding orphan_pass
IsKeyed-orphan_pass now dead [] h = tt
IsKeyed-orphan_pass now dead ((j, t) ∷ m) (p, f, h) = (
  p ∙ sym (id-remove_if (λ b x. refl) (λ x. is_orphan dead t) now t),
  Fresh-orphan_pass j now (if is_orphan dead t then t.id ∷ dead else dead) m f,
  IsKeyed-orphan_pass now (if is_orphan dead t then t.id ∷ dead else dead) m h,
)

id-place :
    (ctx : ApplyContext) (it : Placement) (t : Task)
    → (if t.is_deleted then t else touch ctx.now (record t { sort_order = it.sort_order })).id
      ≡ t.id
id-place ctx it t = ground arith

IsKeyed-place_all :
    (ctx : ApplyContext) (items : List Placement) (m : Dict Task)
    → IsKeyed m
    → IsKeyed (place_all ctx items m)
unfolding place_all
IsKeyed-place_all ctx [] m h = h
IsKeyed-place_all ctx (it ∷ items) m h =
    IsKeyed-place_all ctx items (place ctx it m)
      (unfold place in IsKeyed-amend it.id _ m (id-place ctx it) h)

id-follow_moved :
    (ctx : ApplyContext) (id : String) (t st : Task) → (follow_moved ctx id t st).id ≡ st.id
unfolding follow_moved
id-follow_moved ctx id t st = ground arith

IsKeyed-settle :
    (ctx : ApplyContext) (id : String) (t : Task) (m : Dict Task)
    → id ≡ t.id
    → IsKeyed m
    → IsKeyed (settle ctx id t m)
unfolding settle
IsKeyed-settle ctx id t m e h =
    elim (find_parent t.parent_task_id m)
      as (λ o. IsKeyed (elim o [
        | some p ↦
            set id
              (touch ctx.now (record t { project_id = p.project_id; section_id = p.section_id })) m
        | none ↦ set id (touch ctx.now t) (each (follow_moved ctx id t) m)
      ])) [
        | none ↦
            IsKeyed-set id _ _ e
              (IsKeyed-each (follow_moved ctx id t) m (id-follow_moved ctx id t) h)
        | some p ↦ IsKeyed-set id _ _ e h
      ]

id-complete :
    (ctx : ApplyContext) (id : String) (a : Args) (t : Task) → (Tasks.complete ctx id a t).id ≡ t.id
unfolding Tasks.complete
id-complete ctx id a t = ground arith

id-leave_section :
    (ctx : ApplyContext) (id : String) (t : Task) → (Projects.leave_section ctx id t).id ≡ t.id
unfolding Projects.leave_section
id-leave_section ctx id t = ground arith

id-unlabel : (ctx : ApplyContext) (id : String) (t : Task) → (Labels.unlabel ctx id t).id ≡ t.id
unfolding Labels.unlabel
id-unlabel ctx id t = ground arith

id-update :
    (ctx : ApplyContext) (id : String) (a : Args) (t : Task)
    → (touch ctx.now (Tasks.undate ctx id (Tasks.patch_task ctx id a t))).id ≡ t.id
unfolding Tasks.patch_task
id-update ctx id a t = ground arith

module _ (r : Replica) (h : IsKeyedReplica r) where
  with_tasks : (m : Dict Task) → IsKeyed m → IsKeyedReplica (record r { tasks = m })
  with_tasks m k = record {
    projects = h.projects;
    sections = h.sections;
    tasks = k;
    labels = h.labels;
    comments = h.comments;
    attachments = h.attachments;
    members = h.members;
  }

  with_comments : (m : Dict Comment) → IsKeyed m → IsKeyedReplica (record r { comments = m })
  with_comments m k = record {
    projects = h.projects;
    sections = h.sections;
    tasks = h.tasks;
    labels = h.labels;
    comments = k;
    attachments = h.attachments;
    members = h.members;
  }

  with_sections : (m : Dict Section) → IsKeyed m → IsKeyedReplica (record r { sections = m })
  with_sections m k = record {
    projects = h.projects;
    sections = k;
    tasks = h.tasks;
    labels = h.labels;
    comments = h.comments;
    attachments = h.attachments;
    members = h.members;
  }

  with_labels : (m : Dict Label) → IsKeyed m → IsKeyedReplica (record r { labels = m })
  with_labels m k = record {
    projects = h.projects;
    sections = h.sections;
    tasks = h.tasks;
    labels = k;
    comments = h.comments;
    attachments = h.attachments;
    members = h.members;
  }

  with_projects : (m : Dict Project) → IsKeyed m → IsKeyedReplica (record r { projects = m })
  with_projects m k = record {
    projects = k;
    sections = h.sections;
    tasks = h.tasks;
    labels = h.labels;
    comments = h.comments;
    attachments = h.attachments;
    members = h.members;
  }

  with_attachments :
      (m : Dict Attachment) → IsKeyed m → IsKeyedReplica (record r { attachments = m })
  with_attachments m k = record {
    projects = h.projects;
    sections = h.sections;
    tasks = h.tasks;
    labels = h.labels;
    comments = h.comments;
    attachments = k;
    members = h.members;
  }

module _ (ctx : ApplyContext) (id : String) (a : Args) (r : Replica) (h : IsKeyedReplica r) where
  move_task-IsKeyed :
      (o : Option Task) → get id r.tasks ≡ o → IsKeyed (Tasks.move_task ctx id a o r.tasks)
  unfolding Tasks.move_task
  move_task-IsKeyed none e = h.tasks
  move_task-IsKeyed (some t) e = elim (Bool-cases (Tasks.own_parent ctx id a t)) [
    | inl q ↦ rw q h.tasks
    | inr q ↦
        let t' = Tasks.patch_move ctx id a t in
        let same_id : id ≡ t'.id = sym (id_of_get id r.tasks t h.tasks e) in
        rw q (IsKeyed-settle ctx id t' _ same_id (IsKeyed-set id t' r.tasks same_id h.tasks))
  ]

  dispatch-IsKeyedReplica : (c : CommandType) → IsKeyedReplica (dispatch ctx id c a r)
  unfolding dispatch
  dispatch-IsKeyedReplica project_add =
      unfold Projects.project_add in
      with_projects r h _ (IsKeyed-set id _ r.projects refl h.projects)
  dispatch-IsKeyedReplica project_update =
      unfold Projects.project_update in
      with_projects r h _ (IsKeyed-amend id _ r.projects (λ x. refl) h.projects)
  dispatch-IsKeyedReplica project_delete =
      unfold Projects.project_delete in
      record {
        projects = IsKeyed-amend id _ r.projects (λ x. refl) h.projects;
        sections = IsKeyed-each _ r.sections (id-remove_if (λ b x. refl) _ ctx.now) h.sections;
        tasks =
            IsKeyed-orphan_pass _ _ _
              (IsKeyed-each _ r.tasks (id-remove_if (λ b x. refl) _ ctx.now) h.tasks);
        labels = h.labels;
        comments = IsKeyed-each _ r.comments (id-remove_if (λ b x. refl) _ ctx.now) h.comments;
        attachments =
            IsKeyed-each _ r.attachments (id-remove_if (λ b x. refl) _ ctx.now) h.attachments;
        members = h.members;
      }
  dispatch-IsKeyedReplica section_add =
      unfold Projects.section_add in
      with_sections r h _ (IsKeyed-set id _ r.sections refl h.sections)
  dispatch-IsKeyedReplica section_update =
      unfold Projects.section_update in
      with_sections r h _ (IsKeyed-amend id _ r.sections (λ x. refl) h.sections)
  dispatch-IsKeyedReplica section_delete =
      unfold Projects.section_delete in
      record {
        projects = h.projects;
        sections = IsKeyed-amend id _ r.sections (λ x. refl) h.sections;
        tasks = IsKeyed-each _ r.tasks (id-leave_section ctx id) h.tasks;
        labels = h.labels;
        comments = h.comments;
        attachments = h.attachments;
        members = h.members;
      }
  dispatch-IsKeyedReplica task_add =
      unfold Tasks.task_add in with_tasks r h _ (IsKeyed-set id _ r.tasks refl h.tasks)
  dispatch-IsKeyedReplica task_update =
      unfold Tasks.task_update in
      with_tasks r h _ (IsKeyed-amend id _ r.tasks (id-update ctx id a) h.tasks)
  dispatch-IsKeyedReplica task_move =
      unfold Tasks.task_move in with_tasks r h _ (move_task-IsKeyed (get id r.tasks) refl)
  dispatch-IsKeyedReplica task_complete =
      unfold Tasks.task_complete in
      with_tasks r h _ (IsKeyed-amend id _ r.tasks (id-complete ctx id a) h.tasks)
  dispatch-IsKeyedReplica task_uncomplete =
      unfold Tasks.task_uncomplete in
      with_tasks r h _ (IsKeyed-amend id _ r.tasks (λ x. refl) h.tasks)
  dispatch-IsKeyedReplica task_delete =
      unfold Tasks.task_delete in
      record {
        projects = h.projects;
        sections = h.sections;
        tasks =
            IsKeyed-each _ _ (id-remove_if (λ b x. refl) _ ctx.now)
              (IsKeyed-amend id _ r.tasks (λ x. refl) h.tasks);
        labels = h.labels;
        comments = IsKeyed-each _ r.comments (id-remove_if (λ b x. refl) _ ctx.now) h.comments;
        attachments =
            IsKeyed-each _ r.attachments (id-remove_if (λ b x. refl) _ ctx.now) h.attachments;
        members = h.members;
      }
  dispatch-IsKeyedReplica task_reorder =
      unfold Tasks.task_reorder in
      with_tasks r h _ (IsKeyed-place_all ctx (or_else a.items []) r.tasks h.tasks)
  dispatch-IsKeyedReplica label_add =
      unfold Labels.label_add in with_labels r h _ (IsKeyed-set id _ r.labels refl h.labels)
  dispatch-IsKeyedReplica label_update =
      unfold Labels.label_update in
      with_labels r h _ (IsKeyed-amend id _ r.labels (λ x. refl) h.labels)
  dispatch-IsKeyedReplica label_delete =
      unfold Labels.label_delete in
      record {
        projects = h.projects;
        sections = h.sections;
        tasks = IsKeyed-each _ r.tasks (id-unlabel ctx id) h.tasks;
        labels = IsKeyed-amend id _ r.labels (λ x. refl) h.labels;
        comments = h.comments;
        attachments = h.attachments;
        members = h.members;
      }
  dispatch-IsKeyedReplica comment_add =
      unfold Labels.comment_add in with_comments r h _ (IsKeyed-set id _ r.comments refl h.comments)
  dispatch-IsKeyedReplica comment_update =
      unfold Labels.comment_update in
      with_comments r h _ (IsKeyed-amend id _ r.comments (λ x. refl) h.comments)
  dispatch-IsKeyedReplica comment_delete =
      unfold Labels.comment_delete in
      with_comments r h _ (IsKeyed-amend id _ r.comments (λ x. refl) h.comments)
  dispatch-IsKeyedReplica attachment_delete =
      unfold Labels.attachment_delete in
      with_attachments r h _ (IsKeyed-amend id _ r.attachments (λ x. refl) h.attachments)

-- Every command, whatever its arguments, keeps each key the id of its object, once.
pub apply_command-IsKeyedReplica :
    (ctx : ApplyContext) (r : Replica) (cmd : SyncCommand)
    → IsKeyedReplica r
    → IsKeyedReplica (apply_command ctx r cmd)
unfolding apply_command
apply_command-IsKeyedReplica ctx r cmd h =
    dispatch-IsKeyedReplica ctx (target cmd) cmd.args r h cmd.type

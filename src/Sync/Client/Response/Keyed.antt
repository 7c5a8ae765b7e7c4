-- ===== src/Sync/Client/Response/Keyed.antt =====
-- The keys of the replica after an answer of the server, and after a read of storage
-- (packages/sync-client/src/client.ts).
use balu_todo.Prelude.{refl, List, [], ◌∷◌, String, if◌then◌else◌, arith, Bool-cases, inl, inr}
use balu_todo.Dict.{Dict, set, delete}
use balu_todo.Domain.Types.{
  SyncCommand, Synced, project_synced, section_synced, task_synced, label_synced, comment_synced,
  attachment_synced, member_synced,
}
use balu_todo.Sync.Replica.{Replica, SerializedReplica, set_all, hydrate_replica}
use balu_todo.Sync.Replica.Stored.{
  IsKeyed, IsKeyedReplica, IsKeyed-set, IsKeyed-delete, IsKeyed-each,
}
use balu_todo.Sync.Apply.Objects.{ApplyContext}
use balu_todo.Sync.Apply.{apply_command}
use balu_todo.Sync.Apply.Keyed.{apply_command-IsKeyedReplica}
use balu_todo.Sync.Rewrite.{rewrite_task, rewrite_replica_refs, delete_keys, remove_temp_entries}
use balu_todo.Sync.Protocol.{SyncResponse}
use balu_todo.Sync.Client.State.{Client, Cell, stored}
use balu_todo.Sync.Client.Storage.{read_replica}
use balu_todo.Sync.Client.Response.{
  merge_into, set_live, server_replica, merge_response, apply_all, merged, has_mapping, settled,
  apply_response,
}

module _ {A : Type 0} ⦃s : Synced A⦄ where
  IsKeyed-merge_into : (m : Dict A) (items : List A) → IsKeyed m → IsKeyed (merge_into m items)
  unfolding merge_into
  IsKeyed-merge_into m [] h = h
  IsKeyed-merge_into m (x ∷ items) h =
      IsKeyed-merge_into
        (if (s.base x).is_deleted then delete (s.base x).id m else set (s.base x).id x m) items
        (ground (arith, IsKeyed-set (s.base x).id x m refl h, IsKeyed-delete (s.base x).id m h))

  IsKeyed-set_live : (m : Dict A) (items : List A) → IsKeyed m → IsKeyed (set_live m items)
  unfolding set_live
  IsKeyed-set_live m [] h = h
  IsKeyed-set_live m (x ∷ items) h =
      IsKeyed-set_live (if (s.base x).is_deleted then m else set (s.base x).id x m) items
        (ground (arith, h, IsKeyed-set (s.base x).id x m refl h))

  IsKeyed-set_all : (m : Dict A) (items : List A) → IsKeyed m → IsKeyed (set_all m items)
  unfolding set_all
  IsKeyed-set_all m [] h = h
  IsKeyed-set_all m (x ∷ items) h =
      IsKeyed-set_all (set (s.base x).id x m) items (IsKeyed-set (s.base x).id x m refl h)

  IsKeyed-delete_keys :
      (mapping : Dict String) (m : Dict A) → IsKeyed m → IsKeyed (delete_keys mapping m)
  unfolding delete_keys
  IsKeyed-delete_keys [] m h = h
  IsKeyed-delete_keys ((temp, id) ∷ mapping) m h =
      IsKeyed-delete_keys mapping (delete temp m) (IsKeyed-delete temp m h)

merge_response-IsKeyedReplica :
    (r : Replica) (resp : SyncResponse) → IsKeyedReplica r → IsKeyedReplica (merge_response r resp)
unfolding merge_response
merge_response-IsKeyedReplica r resp h = record {
  projects = IsKeyed-merge_into r.projects resp.projects h.projects;
  sections = IsKeyed-merge_into r.sections resp.sections h.sections;
  tasks = IsKeyed-merge_into r.tasks resp.tasks h.tasks;
  labels = IsKeyed-merge_into r.labels resp.labels h.labels;
  comments = IsKeyed-merge_into r.comments resp.comments h.comments;
  attachments = IsKeyed-merge_into r.attachments resp.attachments h.attachments;
  members = IsKeyed-merge_into r.members resp.members h.members;
}

server_replica-IsKeyedReplica : (resp : SyncResponse) → IsKeyedReplica (server_replica resp)
unfolding server_replica
server_replica-IsKeyedReplica resp = record {
  projects = IsKeyed-set_live [] resp.projects tt;
  sections = IsKeyed-set_live [] resp.sections tt;
  tasks = IsKeyed-set_live [] resp.tasks tt;
  labels = IsKeyed-set_live [] resp.labels tt;
  comments = IsKeyed-set_live [] resp.comments tt;
  attachments = IsKeyed-set_live [] resp.attachments tt;
  members = IsKeyed-set_live [] resp.members tt;
}

hydrate_replica-IsKeyedReplica : (d : SerializedReplica) → IsKeyedReplica (hydrate_replica d)
unfolding hydrate_replica
hydrate_replica-IsKeyedReplica d = record {
  projects = IsKeyed-set_all [] d.projects tt;
  sections = IsKeyed-set_all [] d.sections tt;
  tasks = IsKeyed-set_all [] d.tasks tt;
  labels = IsKeyed-set_all [] d.labels tt;
  comments = IsKeyed-set_all [] d.comments tt;
  attachments = IsKeyed-set_all [] d.attachments tt;
  members = IsKeyed-set_all [] d.members tt;
}

rewrite_replica_refs-IsKeyedReplica :
    (mapping : Dict String) (r : Replica)
    → IsKeyedReplica r
    → IsKeyedReplica (rewrite_replica_refs mapping r)
unfolding rewrite_replica_refs
rewrite_replica_refs-IsKeyedReplica mapping r h = record {
  projects = h.projects;
  sections = IsKeyed-each _ r.sections (λ x. refl) h.sections;
  tasks = IsKeyed-each (rewrite_task mapping) r.tasks (λ x. unfold rewrite_task in refl) h.tasks;
  labels = h.labels;
  comments = IsKeyed-each _ r.comments (λ x. refl) h.comments;
  attachments = IsKeyed-each _ r.attachments (λ x. refl) h.attachments;
  members = h.members;
}

remove_temp_entries-IsKeyedReplica :
    (mapping : Dict String) (r : Replica)
    → IsKeyedReplica r
    → IsKeyedReplica (remove_temp_entries mapping r)
unfolding remove_temp_entries
remove_temp_entries-IsKeyedReplica mapping r h = record {
  projects = IsKeyed-delete_keys mapping r.projects h.projects;
  sections = IsKeyed-delete_keys mapping r.sections h.sections;
  tasks = IsKeyed-delete_keys mapping r.tasks h.tasks;
  labels = IsKeyed-delete_keys mapping r.labels h.labels;
  comments = IsKeyed-delete_keys mapping r.comments h.comments;
  attachments = IsKeyed-delete_keys mapping r.attachments h.attachments;
  members = IsKeyed-delete_keys mapping r.members h.members;
}

apply_all-IsKeyedReplica :
    (ctx : ApplyContext) (r : Replica) (commands : List SyncCommand)
    → IsKeyedReplica r
    → IsKeyedReplica (apply_all ctx r commands)
unfolding apply_all
apply_all-IsKeyedReplica ctx r [] h = h
apply_all-IsKeyedReplica ctx r (cmd ∷ commands) h =
    apply_all-IsKeyedReplica ctx (apply_command ctx r cmd) commands
      (apply_command-IsKeyedReplica ctx r cmd h)

merged-IsKeyedReplica :
    (r : Replica) (resp : SyncResponse) → IsKeyedReplica r → IsKeyedReplica (merged r resp)
unfolding merged
merged-IsKeyedReplica r resp h =
    merge_response-IsKeyedReplica _ resp (elim (Bool-cases (has_mapping resp)) [
      | inl e ↦ rw e (
          remove_temp_entries-IsKeyedReplica resp.temp_id_mapping _
            (rewrite_replica_refs-IsKeyedReplica resp.temp_id_mapping r h))
      | inr e ↦ rw e h
    ])

-- Folding in an answer, full or delta, with or without a mapping of ids, keeps each key of the
-- replica the id of its object, once.
pub apply_response-IsKeyedReplica :
    (ctx : ApplyContext) (resp : SyncResponse) (still_queued : List SyncCommand) (c : Client)
    → IsKeyedReplica c.replica
    → IsKeyedReplica (apply_response ctx resp still_queued c).replica
unfolding apply_response
apply_response-IsKeyedReplica ctx resp still_queued c h = elim (Bool-cases resp.full_sync) [
  | inl e ↦ rw e (
      apply_all-IsKeyedReplica ctx _ (settled resp still_queued)
        (server_replica-IsKeyedReplica resp))
  | inr e ↦ rw e (merged-IsKeyedReplica c.replica resp h)
]

pub read_replica-IsKeyedReplica :
    (cell : Cell SerializedReplica) (old : Replica)
    → IsKeyedReplica old
    → IsKeyedReplica (read_replica cell old)
read_replica-IsKeyedReplica (stored d) old h = hydrate_replica-IsKeyedReplica d
read_replica-IsKeyedReplica _ old h = h

-- ===== src/Sync/Client/Response.antt =====
-- How an answer of the server is folded into the client: `rejectedIn`, `relocatedIn`,
-- `applyResponse` and `mergeInto` of packages/sync-client/src/client.ts.
pub mod Keyed
use balu_todo.Prelude.{String, Bool, true, false, none, some, List, [], ◌∷◌, if◌then◌else◌}
use balu_todo.Dict.{Dict, get, set, delete}
use balu_todo.Domain.Types.{
  SyncCommand, Synced, project_synced, section_synced, task_synced, label_synced, comment_synced,
  attachment_synced, member_synced,
}
use balu_todo.Sync.Replica.{Replica}
use balu_todo.Sync.Apply.Objects.{ApplyContext}
use balu_todo.Sync.Apply.{apply_command}
use balu_todo.Sync.Rewrite.{rewrite_command_refs, rewrite_replica_refs, remove_temp_entries}
use balu_todo.Sync.Protocol.{SyncResponse, ok, refused, RejectedCommand, RelocatedCommand}
use balu_todo.Sync.Client.State.{Client}

unfoldable pub rejected_in : List SyncCommand → SyncResponse → List RejectedCommand
rejected_in [] resp = []
rejected_in (command ∷ batch) resp = elim (get command.uuid resp.sync_status) [
  | none ↦ rejected_in batch resp
  | some s ↦ elim s [
    | ok ↦ rejected_in batch resp
    | refused code message ↦
        record { command = command; error_code = code; error = message } ∷ rejected_in batch resp
  ]
]

unfoldable pub relocated_in : List SyncCommand → SyncResponse → List RelocatedCommand
relocated_in [] resp = []
relocated_in (command ∷ batch) resp = elim (get command.uuid resp.relocated) [
  | none ↦ relocated_in batch resp
  | some reasons ↦ record { command = command; reasons = reasons } ∷ relocated_in batch resp
]

module _ {A : Type 0} ⦃s : Synced A⦄ where
  unfoldable pub merge_into : Dict A → List A → Dict A
  merge_into m [] = m
  merge_into m (x ∷ items) =
      merge_into (if (s.base x).is_deleted then delete (s.base x).id m else set (s.base x).id x m)
        items

  -- `for (const x of items) if (!x.is_deleted) m.set(x.id, x)`
  unfoldable pub set_live : Dict A → List A → Dict A
  set_live m [] = m
  set_live m (x ∷ items) =
      set_live (if (s.base x).is_deleted then m else set (s.base x).id x m) items

-- The replica that a full response describes.
unfoldable pub server_replica : SyncResponse → Replica
unfolding set_live
server_replica resp = record {
  projects = set_live [] resp.projects;
  sections = set_live [] resp.sections;
  tasks = set_live [] resp.tasks;
  labels = set_live [] resp.labels;
  comments = set_live [] resp.comments;
  attachments = set_live [] resp.attachments;
  members = set_live [] resp.members;
}

unfoldable pub merge_response : Replica → SyncResponse → Replica
unfolding merge_into
merge_response r resp = record {
  projects = merge_into r.projects resp.projects;
  sections = merge_into r.sections resp.sections;
  tasks = merge_into r.tasks resp.tasks;
  labels = merge_into r.labels resp.labels;
  comments = merge_into r.comments resp.comments;
  attachments = merge_into r.attachments resp.attachments;
  members = merge_into r.members resp.members;
}

-- `for (const cmd of commands) applyCommand(replica, cmd, ctx)`
unfoldable pub apply_all : ApplyContext → Replica → List SyncCommand → Replica
apply_all ctx r [] = r
apply_all ctx r (cmd ∷ commands) = apply_all ctx (apply_command ctx r cmd) commands

abbrev pub has_mapping : SyncResponse → Bool
has_mapping resp = elim resp.temp_id_mapping [ [] ↦ false | _ ↦ true ]

-- `rewriteCommandRefs` on the queue. What is still queued are the same objects.
abbrev pub settled : SyncResponse → List SyncCommand → List SyncCommand
settled resp commands =
    if has_mapping resp then rewrite_command_refs resp.temp_id_mapping commands else commands

-- `{ ...idAliases, ...mapping }`
unfoldable pub add_aliases : Dict String → Dict String → Dict String
add_aliases aliases [] = aliases
add_aliases aliases ((temp, id) ∷ mapping) = add_aliases (set temp id aliases) mapping

unfoldable pub merged : Replica → SyncResponse → Replica
unfolding merge_response
merged r resp =
    let mapping = resp.temp_id_mapping in
    merge_response
      (if has_mapping resp then remove_temp_entries mapping (rewrite_replica_refs mapping r) else r)
      resp

-- `still_queued` is given as it stands before the rewriting.
unfoldable pub apply_response :
    ApplyContext → SyncResponse → (still_queued : List SyncCommand) → Client → Client
unfolding apply_all merged server_replica add_aliases
apply_response ctx resp still_queued c = record c {
  id_aliases = add_aliases c.id_aliases resp.temp_id_mapping;
  queue = settled resp c.queue;
  replica =
      if resp.full_sync
      then apply_all ctx (server_replica resp) (settled resp still_queued)
      else merged c.replica resp;
  sync_token = resp.sync_token;
}

-- ===== src/Sync/Rewrite.antt =====
-- packages/sync-client/src/rewrite.ts: the ids that the server gave in place of temporary ones.
use mathlib.Core.Option
use balu_todo.Prelude.{String, Option, List, [], ◌∷◌, map, or_else}
use balu_todo.Dict.{Dict, get, delete, each}
use balu_todo.Domain.Types.{Args, Placement, SyncCommand, Section, Task, Comment, Attachment}
use balu_todo.Sync.Replica.{Replica}

-- `mapping[v] ?? v`
unfoldable pub rewrite_id : Dict String → String → String
rewrite_id mapping v = or_else (get v mapping) v

-- The function `map` of the source: null stays null.
unfoldable pub rewrite_ref : Dict String → Option String → Option String
rewrite_ref mapping v = Option.map (rewrite_id mapping) v

unfoldable pub rewrite_task : Dict String → Task → Task
rewrite_task mapping t = record t {
  project_id = rewrite_ref mapping t.project_id;
  section_id = rewrite_ref mapping t.section_id;
  parent_task_id = rewrite_ref mapping t.parent_task_id;
  assigned_to = rewrite_ref mapping t.assigned_to;
  label_ids = map (rewrite_id mapping) t.label_ids;
}

unfoldable pub rewrite_replica_refs : Dict String → Replica → Replica
unfolding rewrite_task
rewrite_replica_refs mapping r = record r {
  sections =
      each (λ (s : Section). record s { project_id = rewrite_id mapping s.project_id }) r.sections;
  tasks = each (rewrite_task mapping) r.tasks;
  comments = each (λ (c : Comment). record c { task_id = rewrite_id mapping c.task_id }) r.comments;
  attachments =
      each (λ (a : Attachment). record a { task_id = rewrite_id mapping a.task_id }) r.attachments;
}

-- One command of `rewriteCommandRefs`: the keys ID_KEYS, the labels and the items of its arguments.
unfoldable pub rewrite_args : Dict String → Args → Args
unfolding rewrite_ref
rewrite_args mapping a = record a {
  id = rewrite_ref mapping a.id;
  project_id = Option.map (rewrite_ref mapping) a.project_id;
  section_id = Option.map (rewrite_ref mapping) a.section_id;
  parent_task_id = Option.map (rewrite_ref mapping) a.parent_task_id;
  assigned_to = Option.map (rewrite_ref mapping) a.assigned_to;
  task_id = rewrite_ref mapping a.task_id;
  label_ids = Option.map (map (rewrite_id mapping)) a.label_ids;
  items =
      Option.map (map (λ (it : Placement). record it { id = rewrite_id mapping it.id })) a.items;
}

unfoldable pub rewrite_command : Dict String → SyncCommand → SyncCommand
unfolding rewrite_args
rewrite_command mapping cmd = record cmd { args = rewrite_args mapping cmd.args }

unfoldable pub rewrite_command_refs : Dict String → List SyncCommand → List SyncCommand
unfolding rewrite_command
rewrite_command_refs mapping commands = map (rewrite_command mapping) commands

-- The loop of `removeTempEntries` over the keys of the mapping, for one map of the replica.
unfoldable pub delete_keys {ℓ} : {V : Type ℓ} → Dict String → Dict V → Dict V
delete_keys [] m = m
delete_keys ((temp, id) ∷ mapping) m = delete_keys mapping (delete temp m)

unfoldable pub remove_temp_entries : Dict String → Replica → Replica
unfolding delete_keys
remove_temp_entries mapping r = record {
  projects = delete_keys mapping r.projects;
  sections = delete_keys mapping r.sections;
  tasks = delete_keys mapping r.tasks;
  labels = delete_keys mapping r.labels;
  comments = delete_keys mapping r.comments;
  attachments = delete_keys mapping r.attachments;
  members = delete_keys mapping r.members;
}

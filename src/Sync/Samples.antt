-- ===== src/Sync/Samples.antt =====
-- Small data for the tests: a workspace with one project, a task, its subtask and a comment.
use balu_todo.Prelude.{refl, String, false, Option, none, some, [], ◌∷◌}
use balu_todo.Prelude.Int.{pos}
use balu_todo.Domain.Types.{SyncBase, Project, Task, Comment, SyncCommand, task_add}
pub use balu_todo.Domain.Types.{no_args}
use balu_todo.Sync.Replica.{Replica, empty_replica}
use balu_todo.Sync.Replica.Stored.{IsKeyedReplica}
use balu_todo.Sync.Apply.Objects.{ApplyContext}
use balu_todo.Sync.Protocol.{SyncResponse}
use balu_todo.Sync.Client.State.{Options, Env, Client, new_client, empty_disk}

abbrev pub base_of : String → SyncBase
base_of id = record {
  id = id;
  workspace_id = "w";
  created_at = "2026-07-01T08:00:00Z";
  updated_at = "2026-07-01T08:00:00Z";
  is_deleted = false;
}

abbrev pub task_of : String → Option String → Option String → Task
task_of id project parent = record {
  base = base_of id;
  project_id = project;
  section_id = none;
  parent_task_id = parent;
  title = "Buy milk";
  notes = "";
  start_date = none;
  evening = false;
  someday = false;
  deadline = none;
  reminder_at = none;
  recurrence = none;
  priority = 0;
  label_ids = [];
  assigned_to = none;
  sort_order = pos 1000;
  completed_at = none;
  completed_by = none;
  created_by = "ann";
}

abbrev pub comment_on : String → String → Comment
comment_on id task = record { base = base_of id; task_id = task; author_id = "ann"; body = "two" }

abbrev pub sample_project : Project
sample_project = record {
  base = base_of "p";
  name = "Home";
  color = "teal";
  sort_order = pos 1000;
  archived_at = none;
}

abbrev pub sample : Replica
sample = record (empty_replica) {
  projects = ("p", sample_project) ∷ [];
  tasks =
      ("t", task_of "t" (some "p") none)
      ∷ ("s", task_of "s" none (some "t"))
      ∷ ("u", task_of "u" none none)
      ∷ [];
  comments = ("c", comment_on "c" "s") ∷ ("d", comment_on "d" "u") ∷ [];
}

abbrev pub sample_ctx : ApplyContext
sample_ctx = record {
  workspace_id = "w";
  user_id = "ann";
  now = "2026-07-23T14:00:00.000Z";
  today = 20260723;
}

-- A queued `task_add`.
abbrev pub adding : String → String → SyncCommand
adding uuid temp = record {
  type = task_add;
  uuid = uuid;
  temp_id = some temp;
  args = record (no_args) { title = some "Call" };
}

abbrev pub empty_response : SyncResponse
empty_response = record {
  sync_token = "v2";
  full_sync = false;
  sync_status = [];
  temp_id_mapping = [];
  relocated = [];
  projects = [];
  sections = [];
  tasks = [];
  labels = [];
  comments = [];
  attachments = [];
  members = [];
}

abbrev pub sample_opts : Options
sample_opts = record {
  max_batch = 100;
  body_timeout_ms = 120_000;
  retry_base_ms = 2000;
  retry_max_ms = 30_000;
}

abbrev pub sample_env : Env
sample_env = record { now = 50_000; jitter = 1000; utc_offset = pos 120; ctx = sample_ctx }

abbrev pub fresh_client : Client
fresh_client = new_client sample_opts empty_disk

pub sample-IsKeyedReplica : IsKeyedReplica sample
sample-IsKeyedReplica = record {
  projects = (refl, tt, tt);
  sections = tt;
  tasks = (refl, (refl, (refl, tt)), (refl, (refl, tt), (refl, tt, tt)));
  labels = tt;
  comments = (refl, (refl, tt), (refl, tt, tt));
  attachments = tt;
  members = tt;
}

-- ===== src/Sync/Replica.antt =====
-- packages/sync-client/src/replica.ts: the local copy of a workspace, and its stored form.
pub mod Stored
mod Tests
use balu_todo.Prelude.{String, Bool, List, [], ◌∷◌}
use balu_todo.Dict
use balu_todo.Dict.{Dict, set, values}
use balu_todo.Domain.Types.{
  SyncBase, Project, Section, Task, Label, Comment, Attachment, Member, Synced, project_synced,
  section_synced, task_synced, label_synced, comment_synced, attachment_synced, member_synced,
}

pub record Replica : Type 0 where
  pub projects : Dict Project
  pub sections : Dict Section
  pub tasks : Dict Task
  pub labels : Dict Label
  pub comments : Dict Comment
  pub attachments : Dict Attachment
  pub members : Dict Member

abbrev pub empty_replica : Replica
empty_replica = record {
  projects = [];
  sections = [];
  tasks = [];
  labels = [];
  comments = [];
  attachments = [];
  members = [];
}

pub record SerializedReplica : Type 0 where
  pub projects : List Project
  pub sections : List Section
  pub tasks : List Task
  pub labels : List Label
  pub comments : List Comment
  pub attachments : List Attachment
  pub members : List Member

unfoldable pub serialize_replica : Replica → SerializedReplica
unfolding values
serialize_replica r = record {
  projects = values r.projects;
  sections = values r.sections;
  tasks = values r.tasks;
  labels = values r.labels;
  comments = values r.comments;
  attachments = values r.attachments;
  members = values r.members;
}

-- `for (const x of items) m.set(x.id, x)`
unfoldable pub set_all : {A : Type 0} ⦃s : Synced A⦄ → Dict A → List A → Dict A
unfolding set
set_all m [] = m
set_all ⦃s⦄ m (x ∷ items) = set_all (set (s.base x).id x m) items

-- A stored replica without an `attachments` key reads as one with an empty list.
unfoldable pub hydrate_replica : SerializedReplica → Replica
unfolding set_all
hydrate_replica stored = record {
  projects = set_all [] stored.projects;
  sections = set_all [] stored.sections;
  tasks = set_all [] stored.tasks;
  labels = set_all [] stored.labels;
  comments = set_all [] stored.comments;
  attachments = set_all [] stored.attachments;
  members = set_all [] stored.members;
}

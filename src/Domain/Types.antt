-- ===== src/Domain/Types.antt =====
-- packages/domain/src/types.ts: the synced objects and the commands of the sync protocol.
-- An interface that extends another one has the other's record as its first field.
-- `IsoDate` is the eight digits of a text YYYY-MM-DD read as one number: two such texts are equal,
-- or in order, exactly when these numbers are. Other stamps (`created_at` and the like) are texts.
use balu_todo.Prelude.{ℕ, String, Bool, Option, none, List}
use balu_todo.Prelude.Int.{ℤ}

abbrev pub IsoDate : Type 0
IsoDate = ℕ

-- An ISO 8601 instant: what `Date.parse` makes of it (milliseconds since 1970), or the text if it
-- makes nothing of it.
pub data Instant : Type 0 where
  at : ℕ → Instant
  unreadable : String → Instant

pub data Role : Type 0 where
  owner admin member viewer : Role

pub record SyncBase : Type 0 where
  pub id : String
  pub workspace_id : String
  pub created_at : String
  pub updated_at : String
  pub is_deleted : Bool

pub record Project : Type 0 where
  pub base : SyncBase
  pub open base use *
  pub name : String
  pub color : String
  pub sort_order : ℤ
  pub archived_at : Option String

pub record Section : Type 0 where
  pub base : SyncBase
  pub open base use *
  pub project_id : String
  pub name : String
  pub sort_order : ℤ

pub record Task : Type 0 where
  pub base : SyncBase
  pub open base use *
  pub project_id : Option String
  pub section_id : Option String
  pub parent_task_id : Option String
  pub title : String
  pub notes : String
  pub start_date : Option IsoDate
  pub evening : Bool
  pub someday : Bool
  pub deadline : Option IsoDate
  pub reminder_at : Option Instant
  pub recurrence : Option String
  pub priority : ℕ
  pub label_ids : List String
  pub assigned_to : Option String
  pub sort_order : ℤ
  pub completed_at : Option String
  pub completed_by : Option String
  pub created_by : String

pub record Label : Type 0 where
  pub base : SyncBase
  pub open base use *
  pub name : String
  pub color : String
  pub sort_order : ℤ

pub record Comment : Type 0 where
  pub base : SyncBase
  pub open base use *
  pub task_id : String
  pub author_id : String
  pub body : String

pub record Attachment : Type 0 where
  pub base : SyncBase
  pub open base use *
  pub task_id : String
  pub filename : String
  pub content_type : String
  pub size_bytes : ℕ
  pub created_by : Option String

pub record Member : Type 0 where
  pub base : SyncBase
  pub open base use *
  pub name : String
  pub email : String
  pub role : Role

pub data CommandType : Type 0 where
  project_add project_update project_delete : CommandType
  section_add section_update section_delete : CommandType
  task_add task_update task_move task_complete task_uncomplete task_delete : CommandType
  task_reorder : CommandType
  label_add label_update label_delete : CommandType
  comment_add comment_update comment_delete : CommandType
  attachment_delete : CommandType

-- An element of the `items` of a `task_reorder`.
pub record Placement : Type 0 where
  pub id : String
  pub sort_order : ℤ

-- `args`: each key is absent (`none`) or holds a value of the type that the contract gives it; where
-- that allows null, a key that is present holds an `Option` in turn.
pub record Args : Type 0 where
  pub id : Option String
  pub name : Option String
  pub color : Option String
  pub sort_order : Option ℤ
  pub archived_at : Option (Option String)
  pub project_id : Option (Option String)
  pub section_id : Option (Option String)
  pub parent_task_id : Option (Option String)
  pub title : Option String
  pub notes : Option String
  pub start_date : Option (Option IsoDate)
  pub evening : Option Bool
  pub someday : Option Bool
  pub deadline : Option (Option IsoDate)
  pub reminder_at : Option (Option Instant)
  pub recurrence : Option (Option String)
  pub priority : Option ℕ
  pub label_ids : Option (List String)
  pub assigned_to : Option (Option String)
  pub items : Option (List Placement)
  pub task_id : Option String
  pub body : Option String
  pub today : Option IsoDate
  pub utc_offset : Option ℤ

-- `{}`
abbrev pub no_args : Args
no_args = record {
  id = none;
  name = none;
  color = none;
  sort_order = none;
  archived_at = none;
  project_id = none;
  section_id = none;
  parent_task_id = none;
  title = none;
  notes = none;
  start_date = none;
  evening = none;
  someday = none;
  deadline = none;
  reminder_at = none;
  recurrence = none;
  priority = none;
  label_ids = none;
  assigned_to = none;
  items = none;
  task_id = none;
  body = none;
  today = none;
  utc_offset = none;
}

pub record SyncCommand : Type 0 where
  pub type : CommandType
  pub uuid : String
  pub temp_id : Option String
  pub args : Args

-- An object that carries the common envelope: it can be read, and written back.
pub record Synced (A : Type 0) : Type 0 where
  pub base : A → SyncBase
  pub set_base : SyncBase → A → A

instance abbrev pub project_synced : Synced Project
project_synced = record { base = λ x. x.base; set_base = λ b x. record x { base = b } }

instance abbrev pub section_synced : Synced Section
section_synced = record { base = λ x. x.base; set_base = λ b x. record x { base = b } }

instance abbrev pub task_synced : Synced Task
task_synced = record { base = λ x. x.base; set_base = λ b x. record x { base = b } }

instance abbrev pub label_synced : Synced Label
label_synced = record { base = λ x. x.base; set_base = λ b x. record x { base = b } }

instance abbrev pub comment_synced : Synced Comment
comment_synced = record { base = λ x. x.base; set_base = λ b x. record x { base = b } }

instance abbrev pub attachment_synced : Synced Attachment
attachment_synced = record { base = λ x. x.base; set_base = λ b x. record x { base = b } }

instance abbrev pub member_synced : Synced Member
member_synced = record { base = λ x. x.base; set_base = λ b x. record x { base = b } }

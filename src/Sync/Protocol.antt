-- ===== src/Sync/Protocol.antt =====
-- The answers of the sync endpoint (`SyncResponse` of packages/domain/src/types.ts), and the ways in
-- which a request fails (packages/sync-client/src/client.ts).
use balu_todo.Prelude.{
  ℕ, String, Bool, false, ◌&&◌, ◌||◌, ◌==◌, eqb, Option, none, some, List, if◌then◌else◌,
}
use balu_todo.Dict.{Dict}
use balu_todo.Domain.Types.{Project, Section, Task, Label, Comment, Attachment, Member, SyncCommand}

pub data CommandStatus : Type 0 where
  ok : CommandStatus
  refused : (error_code error : String) → CommandStatus

pub data RelocationReason : Type 0 where
  project_deleted section_deleted parent_deleted : RelocationReason

-- An optional key that an older server leaves out reads as one with nothing in it.
pub record SyncResponse : Type 0 where
  pub sync_token : String
  pub full_sync : Bool
  pub sync_status : Dict CommandStatus
  pub temp_id_mapping : Dict String
  pub relocated : Dict (List RelocationReason)
  pub projects : List Project
  pub sections : List Section
  pub tasks : List Task
  pub labels : List Label
  pub comments : List Comment
  pub attachments : List Attachment
  pub members : List Member

pub data SyncStatus : Type 0 where
  synced syncing offline error : SyncStatus

-- `HttpError` with the status, the contract's error code and the wait that `Retry-After` asks for;
-- `RequestTimeoutError`, before the headers or in the body; and any other failure of a request.
pub data Failure : Type 0 where
  http : (status : ℕ) → (code : Option String) → (retry_after_ms : Option ℕ) → Failure
  timeout : (in_body : Bool) → Failure
  network : Failure

pub data LossReason : Type 0 where
  removed deleted : LossReason

abbrev pub transient : ℕ → Bool
transient status = eqb status 429 || eqb status 502 || eqb status 503 || eqb status 504

unfoldable pub failure_status : Failure → SyncStatus
failure_status (http status code wait) = if transient status then offline else error
failure_status e = offline

abbrev is_code : Option String → String → Bool
is_code none name = false
is_code (some code) name = code == name

unfoldable pub lost_access_reason : Failure → Option LossReason
lost_access_reason (http status code wait) =
    if eqb status 403 && is_code code "forbidden"
    then some removed
    else if eqb status 404 && is_code code "not_found"
    then some deleted
    else none
lost_access_reason e = none

pub record RejectedCommand : Type 0 where
  pub command : SyncCommand
  pub error_code : String
  pub error : String

pub record RelocatedCommand : Type 0 where
  pub command : SyncCommand
  pub reasons : List RelocationReason

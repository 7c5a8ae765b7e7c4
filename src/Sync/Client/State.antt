-- ===== src/Sync/Client/State.antt =====
-- The variables of `createSyncClient` in packages/sync-client/src/client.ts, its options, and what it
-- keeps in storage.
use balu_todo.Prelude.{ℕ, String, Bool, false, Option, none, List, []}
use balu_todo.Prelude.Int.{ℤ}
use balu_todo.Dict.{Dict}
use balu_todo.Domain.Types.{SyncCommand}
use balu_todo.Sync.Replica.{Replica, SerializedReplica, empty_replica}
use balu_todo.Sync.Apply.Objects.{ApplyContext}
use balu_todo.Sync.Protocol.{SyncStatus, offline, LossReason, RejectedCommand, RelocatedCommand}

-- The value under a storage key: none, one that `JSON.parse` refuses, or one that it reads.
pub data Cell {ℓ} (A : Type ℓ) : Type ℓ where
  absent : Cell A
  corrupt : Cell A
  stored : A → Cell A

pub record LossNotice : Type 0 where
  pub reason : LossReason
  pub discarded : ℕ

-- The keys of `workspaceStorageKeys`.
pub record Disk : Type 0 where
  pub queue : Cell (List SyncCommand)
  pub token : Option String
  pub replica : Cell SerializedReplica
  pub needs_full_sync : Bool
  pub loss_notice : Cell LossNotice

abbrev pub empty_disk : Disk
empty_disk = record {
  queue = absent;
  token = none;
  replica = absent;
  needs_full_sync = false;
  loss_notice = absent;
}

pub record Options : Type 0 where
  pub max_batch : ℕ
  pub body_timeout_ms : ℕ
  pub retry_base_ms : ℕ
  pub retry_max_ms : ℕ

-- What a callback of the options is told.
pub data Report : Type 0 where
  rejected : List RejectedCommand → Report
  relocated : List RelocatedCommand → Report
  access_lost : LossReason → (discarded : ℕ) → Report

-- `batchSize`, `timedOutSize` and `okAtCap`
pub record Batching : Type 0 where
  pub size : ℕ
  pub timed_out : Option ℕ
  pub ok_at_cap : ℕ

-- `retryTimer` with its `retryDue`, `retryDelay` and `notBefore`
pub record Retry : Type 0 where
  pub timer : Option ℕ
  pub delay : ℕ
  pub not_before : ℕ

pub record Client : Type 0 where
  pub replica : Replica
  pub queue : List SyncCommand
  pub sync_token : String
  pub status : SyncStatus
  pub failing : Bool
  pub flushing : Bool
  pub hydrated : Bool
  pub needs_full_sync : Bool
  pub has_synced : Bool
  pub id_aliases : Dict String
  pub access_lost : Bool
  pub closed : Bool
  pub started : Bool
  pub body_timeout_ms : ℕ
  pub batching : Batching
  pub retry : Retry
  pub disk : Disk
  pub reports : List Report

-- A new client over what storage holds.
abbrev pub new_client : Options → Disk → Client
new_client opts disk = record {
  replica = empty_replica;
  queue = [];
  sync_token = "*";
  status = offline;
  failing = false;
  flushing = false;
  hydrated = false;
  needs_full_sync = false;
  has_synced = false;
  id_aliases = [];
  access_lost = false;
  closed = false;
  started = false;
  body_timeout_ms = opts.body_timeout_ms;
  batching = record { size = opts.max_batch; timed_out = none; ok_at_cap = 0 };
  retry = record { timer = none; delay = 0; not_before = 0 };
  disk = disk;
  reports = [];
}

-- What the platform answers while a handler runs: the clock in milliseconds, the random factor of a
-- retry in thousandths (800 to 1199), the device's offset from UTC in minutes, and the context of an
-- optimistic apply.
pub record Env : Type 0 where
  pub now : ℕ
  pub jitter : ℕ
  pub utc_offset : ℤ
  pub ctx : ApplyContext

-- ===== src/Sync/Client/Durable.antt =====
-- What a client of packages/sync-client/src/client.ts holds, against what it stores.
pub mod Same
pub mod Edits
pub mod Restart
pub mod Saved
use mathlib.Core.Path.{subst}
use balu_todo.Prelude.{
  ◌++◌, String, ℕ, ◌≡◌, refl, sym, ap, ◌∙◌, arith, [], ◌∷◌, List, some, none, Option, Bool, true,
  false, or_else, truthy, Bool-cases, inl, inr, if◌then◌else◌,
}
use balu_todo.Domain.Types.{SyncCommand}
use balu_todo.Sync.Replica.{empty_replica}
use balu_todo.Sync.Replica.Stored.{IsKeyedReplica, hydrate_replica-serialize_replica}
use balu_todo.Sync.Apply.{apply_command}
use balu_todo.Sync.Apply.Keyed.{apply_command-IsKeyedReplica}
use balu_todo.Sync.Protocol.{
  RejectedCommand, SyncStatus, synced, syncing, Failure, timeout, SyncResponse, LossReason,
  lost_access_reason, failure_status,
}
use balu_todo.Sync.Client.State.{Client, Options, Env, Disk, new_client}
use balu_todo.Sync.Client.Mutate.{CommandInput, FreshIds, mutate, command_of}
use balu_todo.Sync.Client.Retry.{
  reset_retry, set_status, failed, mark_syncing, hold_back, schedule_retry,
}
use balu_todo.Sync.Client.Engine.{
  System, Notices, no_notices, shrink, deliver, pull_start, after_flush, push_next, push_more,
  push_round, flush_start, push_answer, push_failed, pull_answer, pull_failed, fail, lose_access,
  push_lost, pull_lost, body_read, body_failed, stop, close, fold_in, marked, pull_round, noted,
  unsent,
}
use balu_todo.Sync.Client.Storage.{
  silent, hydrate, read_queue, read_replica, persist_queue, persist_token, persist_replica,
  mark_needs_full_sync, clear_needs_full_sync,
}
use balu_todo.Sync.Client.Response.{rejected_in, apply_response, settled}
use balu_todo.Sync.Client.Steps.{
  Reach, Step, boot, next, booted, start, timer_fired, edit, starts, stops, closes, wakes, fires,
  flushes, pulls, push_answered, push_fails, pull_answered, pull_fails,
}
use balu_todo.Sync.Client.Response.Keyed.{
  apply_response-IsKeyedReplica, read_replica-IsKeyedReplica,
}

abbrev pub token_of : Option String → String
token_of t = or_else (truthy t) "*"

pub token_of_again : (t : Option String) → token_of t ≡ token_of (some (token_of t))
token_of_again none = refl
token_of_again (some t) = ground arith

-- The replica is keyed; and while the client writes to storage, what it holds is what a read of
-- storage gives.
pub record IsDurable (c : Client) : Type 0 where
  pub hydrated : c.hydrated ≡ true
  pub keyed : IsKeyedReplica c.replica
  pub queue : silent c ≡ false → read_queue c.disk.queue [] ≡ c.queue
  pub replica : silent c ≡ false → read_replica c.disk.replica empty_replica ≡ c.replica
  pub token : silent c ≡ false → token_of c.disk.token ≡ token_of (some c.sync_token)
  pub marker : silent c ≡ false → c.disk.needs_full_sync ≡ c.needs_full_sync

-- `c'` holds and stores what `c` does, and writes only if `c` does.
pub record IsSame (c c' : Client) : Type 0 where
  pub hydrated : c'.hydrated ≡ c.hydrated
  pub replica : c'.replica ≡ c.replica
  pub queue : c'.queue ≡ c.queue
  pub token : c'.sync_token ≡ c.sync_token
  pub marker : c'.needs_full_sync ≡ c.needs_full_sync
  pub disk : c'.disk ≡ c.disk
  pub writes : silent c' ≡ false → silent c ≡ false

pub IsSame-IsDurable : (c c' : Client) → IsSame c c' → IsDurable c → IsDurable c'
IsSame-IsDurable c c' e h = record {
  hydrated = e.hydrated ∙ h.hydrated;
  keyed = subst IsKeyedReplica (sym e.replica) h.keyed;
  queue = λ o. rw (e.disk, e.queue) (h.queue (e.writes o));
  replica = λ o. rw (e.disk, e.replica) (h.replica (e.writes o));
  token = λ o. rw (e.disk, e.token) (h.token (e.writes o));
  marker = λ o. rw (e.disk, e.marker) (h.marker (e.writes o));
}

-- A silent client has nothing to store.
pub silent-IsDurable :
    (c : Client) → silent c ≡ true → c.hydrated ≡ true → IsKeyedReplica c.replica → IsDurable c
silent-IsDurable c p q h = record {
  hydrated = q;
  keyed = h;
  queue = λ o. cc;
  replica = λ o. cc;
  token = λ o. cc;
  marker = λ o. cc;
}

-- What the writes after a push leave.
pub saved-IsDurable :
    (c : Client)
    → c.hydrated ≡ true
    → IsKeyedReplica c.replica
    → (silent c ≡ false → c.disk.needs_full_sync ≡ c.needs_full_sync)
    → IsDurable (persist_replica (persist_token (persist_queue c)))
unfolding persist_queue persist_token persist_replica
saved-IsDurable c p k m =
    let c' = persist_replica (persist_token (persist_queue c)) in
    let same : c'.replica ≡ c.replica = ground arith in
    record {
      hydrated = ground (arith, p);
      keyed = subst IsKeyedReplica (sym same) k;
      queue = ground arith;
      replica = ground (arith, hydrate_replica-serialize_replica c.replica k);
      token = ground arith;
      marker = ground (arith, m);
    }

-- What the writes after a pull leave.
pub pulled-IsDurable :
    (c : Client)
    → c.hydrated ≡ true
    → IsKeyedReplica c.replica
    → (silent c ≡ false → read_queue c.disk.queue [] ≡ c.queue)
    → (silent c ≡ false → c.disk.needs_full_sync ≡ c.needs_full_sync)
    → IsDurable (persist_replica (persist_token c))
unfolding persist_token persist_replica
pulled-IsDurable c p k q m =
    let c' = persist_replica (persist_token c) in
    let same : c'.replica ≡ c.replica = ground arith in
    record {
      hydrated = ground (arith, p);
      keyed = subst IsKeyedReplica (sym same) k;
      queue = ground (arith, q);
      replica = ground (arith, hydrate_replica-serialize_replica c.replica k);
      token = ground arith;
      marker = ground (arith, m);
    }

-- What the writes after an edit leave.
pub edited-IsDurable :
    (c : Client)
    → silent c ≡ false
    → c.hydrated ≡ true
    → IsKeyedReplica c.replica
    → (silent c ≡ false → token_of c.disk.token ≡ token_of (some c.sync_token))
    → (silent c ≡ false → c.disk.needs_full_sync ≡ c.needs_full_sync)
    → IsDurable (persist_replica (persist_queue c))
unfolding persist_queue persist_replica
edited-IsDurable c o p k t m =
    let c' = persist_replica (persist_queue c) in
    let same : c'.replica ≡ c.replica = ground arith in
    record {
      hydrated = ground (arith, p);
      keyed = subst IsKeyedReplica (sym same) k;
      queue = ground (arith);
      replica = ground (arith, hydrate_replica-serialize_replica c.replica k);
      token = ground (arith, t);
      marker = ground (arith, m);
    }

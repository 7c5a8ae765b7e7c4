-- ===== src/Sync/Client/Engine.antt =====
-- The network work of packages/sync-client/src/client.ts: `flush`, `pull`, `doSync`, `loseAccess`,
-- `stop` and `close`. Work is cut at its requests: between a request and its answer the user may
-- edit, and the client may be stopped or closed.
use balu_todo.Prelude.{
  ℕ, ◌+◌, ◌*◌, String, true, false, not, ◌||◌, Option, none, some, List, [], ◌∷◌, ◌++◌, map, filter,
  take, length, member, min, if◌then◌else◌,
}
use balu_todo.Domain.Types.{SyncCommand}
use balu_todo.Sync.Protocol.{
  SyncResponse, synced, error, Failure, timeout, failure_status, lost_access_reason, LossReason,
  RejectedCommand, RelocatedCommand,
}
use balu_todo.Sync.Client.State.{Client, Options, Env, Report, rejected, relocated, access_lost}
use balu_todo.Sync.Client.Batch.{passed, shrunk}
use balu_todo.Sync.Client.Response.{rejected_in, relocated_in, apply_response, settled}
use balu_todo.Sync.Client.Retry.{
  set_status, mark_syncing, failed, held_back, hold_back, reset_retry,
}
use balu_todo.Sync.Client.Storage.{
  silent, persist_queue, persist_token, persist_replica, mark_needs_full_sync,
  clear_needs_full_sync, without_replica, without_queue, without_notice,
}

-- The body of a request.
pub record SyncRequest : Type 0 where
  pub sync_token : String
  pub commands : List SyncCommand

unfoldable pub request : Client → List SyncCommand → SyncRequest
request c commands = record {
  sync_token = if c.needs_full_sync then "*" else c.sync_token;
  commands = commands;
}

-- What a flush has to report when it is over.
pub record Notices : Type 0 where
  pub rejected : List RejectedCommand
  pub relocated : List RelocatedCommand

abbrev pub no_notices : Notices
no_notices = record { rejected = []; relocated = [] }

-- The request in flight: a push of a batch, or a pull, each with the notices that are owed.
pub data Flight : Type 0 where
  grounded : Flight
  pushing : (batch : List SyncCommand) → Notices → Flight
  pulling : Notices → Flight

pub record System : Type 0 where
  pub client : Client
  pub flight : Flight

-- `timed out in the body`: the next read gets twice the time; an answer restores the limit.
abbrev body_timeout_cap : ℕ
body_timeout_cap = 600_000

abbrev pub body_read : Options → Client → Client
body_read opts c = record c { body_timeout_ms = opts.body_timeout_ms }

abbrev pub body_failed : Failure → Client → Client
body_failed (timeout true) c = record c {
  body_timeout_ms = min (c.body_timeout_ms * 2) body_timeout_cap;
}
body_failed e c = c

unfoldable pub stop : Client → Client
unfolding reset_retry
stop c = reset_retry (record c { started = false })

unfoldable pub close : Client → Client
unfolding stop
close c = stop (record c { closed = true })

-- The notices of one answer. The reported commands are objects of the queue that the answer's
-- mapping is applied to.
unfoldable pub noted : List SyncCommand → SyncResponse → Notices → Notices
noted batch resp owed = record {
  rejected = owed.rejected ++ rejected_in (settled resp batch) resp;
  relocated = owed.relocated ++ relocated_in (settled resp batch) resp;
}

-- `queue.filter((c) => !sent.has(c.uuid))`
unfoldable pub unsent : List SyncCommand → List SyncCommand → List SyncCommand
unsent batch queue =
    filter (λ c. not (member c.uuid (map (λ (b : SyncCommand). b.uuid) batch))) queue

abbrev pub marked : List RejectedCommand → Client → Client
marked [] c = c
marked (x ∷ xs) c = mark_needs_full_sync c

module _ (opts : Options) (env : Env) where
  unfoldable pub lose_access : LossReason → (also_discarded : ℕ) → Client → Client
  lose_access reason also c =
      if silent c
      then c
      else (let discarded = length c.queue + also in
          let c' = stop (record c { access_lost = true }) in
          set_status opts env error (record c' {
            disk = without_notice (without_queue (without_replica c'.disk));
            queue = [];
            reports = c'.reports ++ access_lost reason discarded ∷ [];
          }))

  abbrev report_rejected : List RejectedCommand → List Report
  report_rejected [] = []
  report_rejected (x ∷ xs) = rejected (x ∷ xs) ∷ []

  abbrev report_relocated : List RelocatedCommand → List Report
  report_relocated [] = []
  report_relocated (x ∷ xs) = relocated (x ∷ xs) ∷ []

  -- The callbacks at the end of a flush.
  unfoldable pub deliver : Notices → Client → Client
  deliver owed c = if silent c then c else record c {
    reports = c.reports ++ (report_rejected owed.rejected ++ report_relocated owed.relocated);
  }

  -- The first part of `pull`, up to its request.
  unfoldable pub pull_start : Notices → Client → System
  pull_start owed c =
      if silent c
      then record { client = deliver owed c; flight = grounded }
      else if held_back env c
      then record { client = deliver owed (hold_back env c); flight = grounded }
      else record { client = mark_syncing opts env c; flight = pulling owed }

  -- What follows the loop of `flush`, when access was not lost.
  unfoldable pub after_flush : Notices → Client → System
  after_flush owed c =
      if c.needs_full_sync
      then pull_start owed c
      else record { client = deliver owed c; flight = grounded }

  unfoldable pub push_next : Notices → Client → System
  push_next owed c = record { client = c; flight = pushing (take c.batching.size c.queue) owed }

  unfoldable pub flush_start : Client → System
  flush_start c = elim (silent c || c.flushing) [
    | true ↦ record { client = c; flight = grounded }
    | false ↦ elim c.queue [
      | [] ↦ record { client = c; flight = grounded }
      | _ ↦
          if held_back env c
          then record { client = hold_back env c; flight = grounded }
          else push_next no_notices (mark_syncing opts env (record c { flushing = true }))
    ]
  ]

  -- One round of the loop of `flush`, from `applyResponse` to the next test of the queue.
  unfoldable pub fold_in : List SyncCommand → SyncResponse → Client → Client
  fold_in batch resp c =
      let remaining = unsent batch c.queue in
      let c2 = apply_response env.ctx resp remaining c in
      let c3 = record c2 { queue = settled resp remaining } in
      let c4 = persist_replica (persist_token (persist_queue c3)) in
      let c5 = if resp.full_sync then clear_needs_full_sync c4 else c4 in
      record c5 { batching = passed opts.max_batch (length batch) c5.batching }

  -- The round from the answer on.
  unfoldable pub push_round : List SyncCommand → SyncResponse → Client → Client
  push_round batch resp c = fold_in batch resp (marked (rejected_in batch resp) (body_read opts c))

  -- The test of the loop after a round.
  unfoldable pub push_more : List SyncCommand → Notices → Client → System
  push_more [] owed c =
      after_flush owed (record (set_status opts env synced c) { flushing = false })
  push_more (cmd ∷ queue) owed c = push_next owed c

  -- The answer to a push.
  unfoldable pub push_answer : List SyncCommand → Notices → SyncResponse → Client → System
  push_answer batch owed resp c =
      if c.closed
      then after_flush owed (record (body_read opts c) { flushing = false })
      else (let c' = push_round batch resp c in push_more c'.queue (noted batch resp owed) c')

  -- The status that a failed request leaves.
  unfoldable pub fail : Failure → Client → Client
  fail e c = set_status opts env (failure_status e) (failed env e c)

  -- The timeout reaction and the `finally` of `flush`.
  abbrev pub shrink : List SyncCommand → Failure → Client → Client
  shrink batch e c = record c {
    batching = shrunk opts.max_batch (length batch) e c.batching;
    flushing = false;
  }

  -- What follows the `try` of `flush`, when it failed.
  unfoldable pub push_lost : Option LossReason → Notices → Failure → Client → System
  push_lost none owed e c = after_flush owed (fail e c)
  push_lost (some reason) owed e c = record {
    client = lose_access reason (length owed.rejected) c;
    flight = grounded;
  }

  unfoldable pub push_failed : List SyncCommand → Notices → Failure → Client → System
  push_failed batch owed e c =
      push_lost (lost_access_reason e) owed e (shrink batch e (body_failed e c))

  -- The part of `pull` behind its answer.
  unfoldable pub pull_round : SyncResponse → Client → Client
  pull_round resp c =
      let c1 = apply_response env.ctx resp c.queue (body_read opts c) in
      let c2 = persist_replica (persist_token c1) in
      let c3 = if resp.full_sync then clear_needs_full_sync c2 else c2 in
      set_status opts env synced c3

  unfoldable pub pull_answer : Notices → SyncResponse → Client → System
  pull_answer owed resp c =
      if c.closed
      then record { client = body_read opts c; flight = grounded }
      else record { client = deliver owed (pull_round resp c); flight = grounded }

  unfoldable pub pull_lost : Option LossReason → Notices → Failure → Client → Client
  pull_lost none owed e c = fail e c
  pull_lost (some reason) owed e c = lose_access reason (length owed.rejected) c

  unfoldable pub pull_failed : Notices → Failure → Client → System
  pull_failed owed e c = record {
    client = deliver owed (pull_lost (lost_access_reason e) owed e (body_failed e c));
    flight = grounded;
  }

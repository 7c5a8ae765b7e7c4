-- ===== src/Sync/Client/Retry/Runs.antt =====
-- The retry timer under every handler and run of packages/sync-client/src/client.ts.
use balu_todo.Prelude.{ℕ, refl, arith, [], ◌∷◌, List, some, none, Option, true, false}
use balu_todo.Domain.Types.{SyncCommand}
use balu_todo.Sync.Protocol.{
  RejectedCommand, synced, Failure, timeout, SyncResponse, LossReason, lost_access_reason,
}
use balu_todo.Sync.Client.State.{Client, Options, Env, Disk}
use balu_todo.Sync.Client.Mutate.{mutate}
use balu_todo.Sync.Client.Retry.{reset_retry, schedule_retry, set_status, hold_back}
use balu_todo.Sync.Client.Engine.{
  System, Notices, no_notices, shrink, deliver, pull_start, after_flush, push_next, push_more,
  push_round, flush_start, push_answer, push_failed, pull_answer, pull_failed, fail, lose_access,
  push_lost, pull_lost, body_read, body_failed, stop, close, fold_in, marked, pull_round, noted,
}
use balu_todo.Sync.Client.Storage.{
  hydrate, persist_queue, persist_token, persist_replica, mark_needs_full_sync,
  clear_needs_full_sync,
}
use balu_todo.Sync.Client.Response.{rejected_in, apply_response}
use balu_todo.Sync.Client.Steps.{
  start, timer_fired, Reach, boot, next, booted, Step, edit, starts, stops, closes, wakes, fires,
  flushes, pulls, push_answered, push_fails, pull_answered, pull_fails,
}
use balu_todo.Sync.Client.Retry.Patience.{
  IsPatient, Alike, Alike-IsPatient, set_status-IsPatient, fail-IsPatient, mark_syncing-IsPatient,
  hold_back-IsPatient,
}

module _ (opts : Options) (env : Env) where
  deliver-IsPatient :
      (owed : Notices) (c : Client) → IsPatient opts c → IsPatient opts (deliver opts env owed c)
  unfolding deliver
  deliver-IsPatient owed c h = ground arith

  pull_start-IsPatient :
      (owed : Notices) (c : Client)
      → IsPatient opts c
      → IsPatient opts (pull_start opts env owed c).client
  unfolding pull_start
  pull_start-IsPatient owed c h = ground (
    arith,
    deliver-IsPatient owed c h,
    deliver-IsPatient owed (hold_back env c) (hold_back-IsPatient opts env c h),
    mark_syncing-IsPatient opts env c h,
  )

  after_flush-IsPatient :
      (owed : Notices) (c : Client)
      → IsPatient opts c
      → IsPatient opts (after_flush opts env owed c).client
  unfolding after_flush
  after_flush-IsPatient owed c h =
      ground (arith, deliver-IsPatient owed c h, pull_start-IsPatient owed c h)

  flush_start-IsPatient :
      (c : Client) → IsPatient opts c → IsPatient opts (flush_start opts env c).client
  unfolding flush_start push_next
  flush_start-IsPatient c h = ground (
    arith,
    hold_back-IsPatient opts env c h,
    mark_syncing-IsPatient opts env (record c { flushing = true })
        (record { patient = h.patient; idle = h.idle; lost = h.lost; delay = h.delay }),
  )

  lose_access-IsPatient :
      (reason : LossReason) (n : ℕ) (c : Client)
      → IsPatient opts c
      → IsPatient opts (lose_access opts env reason n c)
  unfolding lose_access stop reset_retry set_status schedule_retry
  lose_access-IsPatient reason n c h = ground arith

  push_lost-IsPatient :
      (lost : Option LossReason) (owed : Notices) (e : Failure) (c : Client)
      → IsPatient opts c
      → IsPatient opts (push_lost opts env lost owed e c).client
  unfolding push_lost
  push_lost-IsPatient none owed e c h =
      after_flush-IsPatient owed (fail opts env e c) (fail-IsPatient opts env e c h)
  push_lost-IsPatient (some reason) owed e c h = lose_access-IsPatient reason _ c h

  body_failed-IsPatient :
      (e : Failure) (c : Client) → IsPatient opts c → IsPatient opts (body_failed e c)
  body_failed-IsPatient (timeout true) c h = ground arith
  body_failed-IsPatient _ c h = ground arith

  push_failed-IsPatient :
      (batch : List SyncCommand) (owed : Notices) (e : Failure) (c : Client)
      → IsPatient opts c
      → IsPatient opts (push_failed opts env batch owed e c).client
  unfolding push_failed
  push_failed-IsPatient batch owed e c h =
      let c1 = body_failed e c in
      let c2 = shrink opts env batch e c1 in
      push_lost-IsPatient (lost_access_reason e) owed e c2 (
        Alike-IsPatient opts env c1 c2 (record { retry = refl; started = refl; lost = refl })
          (body_failed-IsPatient e c h))

  pull_lost-IsPatient :
      (lost : Option LossReason) (owed : Notices) (e : Failure) (c : Client)
      → IsPatient opts c
      → IsPatient opts (pull_lost opts env lost owed e c)
  unfolding pull_lost
  pull_lost-IsPatient none owed e c h = fail-IsPatient opts env e c h
  pull_lost-IsPatient (some reason) owed e c h = lose_access-IsPatient reason _ c h

  pull_failed-IsPatient :
      (owed : Notices) (e : Failure) (c : Client)
      → IsPatient opts c
      → IsPatient opts (pull_failed opts env owed e c).client
  unfolding pull_failed
  pull_failed-IsPatient owed e c h =
      deliver-IsPatient owed _
        (pull_lost-IsPatient (lost_access_reason e) owed e _ (body_failed-IsPatient e c h))

  pull_round-IsPatient :
      (resp : SyncResponse) (c : Client)
      → IsPatient opts c
      → IsPatient opts (pull_round opts env resp c)
  unfolding pull_round set_status persist_token persist_replica clear_needs_full_sync apply_response
  pull_round-IsPatient resp c h = ground arith

  marked-Alike : (xs : List RejectedCommand) (c : Client) → Alike c (marked xs c)
  unfolding mark_needs_full_sync
  marked-Alike [] c = record { retry = refl; started = refl; lost = refl }
  marked-Alike (x ∷ xs) c = ground arith

  fold_in-IsPatient :
      (batch : List SyncCommand) (resp : SyncResponse) (c : Client)
      → IsPatient opts c
      → IsPatient opts (fold_in opts env batch resp c)
  unfolding fold_in persist_queue persist_token persist_replica clear_needs_full_sync apply_response
  fold_in-IsPatient batch resp c h = ground arith

  push_round-IsPatient :
      (batch : List SyncCommand) (resp : SyncResponse) (c : Client)
      → IsPatient opts c
      → IsPatient opts (push_round opts env batch resp c)
  unfolding push_round
  push_round-IsPatient batch resp c h =
      let c1 = body_read opts c in
      let c2 = marked (rejected_in batch resp) c1 in
      let h1 =
        Alike-IsPatient opts env c c1 (record { retry = refl; started = refl; lost = refl }) h in
      fold_in-IsPatient batch resp c2
        (Alike-IsPatient opts env c1 c2 (marked-Alike (rejected_in batch resp) c1) h1)

  push_more-IsPatient :
      (queue : List SyncCommand) (owed : Notices) (c : Client)
      → IsPatient opts c
      → IsPatient opts (push_more opts env queue owed c).client
  unfolding push_more push_next
  push_more-IsPatient [] owed c h =
      let c' = set_status opts env synced c in
      let c2 = record c' { flushing = false } in
      after_flush-IsPatient owed c2 (
        Alike-IsPatient opts env c' c2 (record { retry = refl; started = refl; lost = refl })
          (set_status-IsPatient opts env synced c h))
  push_more-IsPatient (cmd ∷ queue) owed c h = h

  push_answer-IsPatient :
      (batch : List SyncCommand) (owed : Notices) (resp : SyncResponse) (c : Client)
      → IsPatient opts c
      → IsPatient opts (push_answer opts env batch owed resp c).client
  unfolding push_answer
  push_answer-IsPatient batch owed resp c h =
      let c' = push_round opts env batch resp c in
      let c2 = record (body_read opts c) { flushing = false } in
      let h2 =
        Alike-IsPatient opts env c c2 (record { retry = refl; started = refl; lost = refl }) h in
      ground (
        arith,
        after_flush-IsPatient owed c2 h2,
        push_more-IsPatient c'.queue (noted batch resp owed) c'
            (push_round-IsPatient batch resp c h),
      )

  pull_answer-IsPatient :
      (owed : Notices) (resp : SyncResponse) (c : Client)
      → IsPatient opts c
      → IsPatient opts (pull_answer opts env owed resp c).client
  unfolding pull_answer
  pull_answer-IsPatient owed resp c h =
      ground (arith, deliver-IsPatient owed _ (pull_round-IsPatient resp c h))

-- Every step keeps the retry timer within what the server asked for.
Step-IsPatient :
    (opts : Options) (s t : System)
    → IsPatient opts s.client
    → Step opts s t
    → IsPatient opts t.client
unfolding mutate persist_queue persist_replica start stop close timer_fired reset_retry
Step-IsPatient opts s t h (edit env fresh input _) = ground arith
Step-IsPatient opts s t h (starts _) = ground arith
Step-IsPatient opts s t h (stops _) = ground arith
Step-IsPatient opts s t h (closes _) = ground arith
Step-IsPatient opts s t h (wakes _) = ground arith
Step-IsPatient opts s t h (fires _) = ground arith
Step-IsPatient opts s t h (flushes env c) = flush_start-IsPatient opts env c h
Step-IsPatient opts s t h (pulls env c) = pull_start-IsPatient opts env no_notices c h
Step-IsPatient opts s t h (push_answered env batch owed resp c) =
    push_answer-IsPatient opts env batch owed resp c h
Step-IsPatient opts s t h (push_fails env batch owed e c) =
    push_failed-IsPatient opts env batch owed e c h
Step-IsPatient opts s t h (pull_answered env owed resp c k) =
    pull_answer-IsPatient opts env owed resp c h
Step-IsPatient opts s t h (pull_fails env owed e c) = pull_failed-IsPatient opts env owed e c h

-- In every run that starts from any storage, a retry timer is never due before the time that the
-- server's last `Retry-After` asked for, only a started client with access has a timer, and the
-- retry delay stays within the larger of the base and the limit.
pub Reach-IsPatient :
    (opts : Options) (disk : Disk) (s : System) → Reach opts disk s → IsPatient opts s.client
unfolding booted hydrate
Reach-IsPatient opts disk s boot = ground arith
Reach-IsPatient opts disk s (next r step) =
    Step-IsPatient opts _ s (Reach-IsPatient opts disk _ r) step

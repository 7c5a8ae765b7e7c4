-- ===== src/Sync/Client/Batch/Flight.antt =====
-- The batch in flight, in every run of packages/sync-client/src/client.ts.
use balu_todo.Prelude.{
  ℕ, zero, suc, ◌≡◌, ◌≤◌, refl, arith, length, [], ◌∷◌, List, some, none, Option, true, false, take,
}
use balu_todo.Domain.Types.{SyncCommand}
use balu_todo.Sync.Protocol.{
  RejectedCommand, SyncStatus, synced, syncing, Failure, timeout, SyncResponse, LossReason,
  lost_access_reason, failure_status,
}
use balu_todo.Sync.Client.State.{Client, Options, Env, Disk}
use balu_todo.Sync.Client.Mutate.{mutate}
use balu_todo.Sync.Client.Retry.{reset_retry, set_status, failed, mark_syncing, hold_back}
use balu_todo.Sync.Client.Batch.{passed}
use balu_todo.Sync.Client.Batch.Bounds.{IsBounded, passed-IsBounded, shrunk-IsBounded}
use balu_todo.Sync.Client.Engine.{
  System, Flight, grounded, pushing, Notices, no_notices, shrink, deliver, pull_start, after_flush,
  push_next, push_more, push_round, flush_start, push_answer, push_failed, pull_answer, pull_failed,
  fail, lose_access, push_lost, pull_lost, body_read, body_failed, stop, close, fold_in, marked,
  noted, pull_round,
}
use balu_todo.Sync.Client.Storage.{
  hydrate, persist_queue, persist_token, persist_replica, mark_needs_full_sync,
  clear_needs_full_sync,
}
use balu_todo.Sync.Client.Response.{rejected_in, apply_response}
use balu_todo.Sync.Client.Steps.{
  start, timer_fired, Reach, boot, next, booted, Step, edit, starts, stops, closes, wakes, fires,
  flushes, pulls, push_answered, push_fails, pull_answered, pull_fails,
}

-- The commands of the request in flight.
abbrev pub in_flight : Flight → List SyncCommand
in_flight (pushing batch owed) = batch
in_flight f = []

module _ (opts : Options) where
  kept :
      (c c' : Client)
      → c'.batching ≡ c.batching
      → IsBounded opts.max_batch c.batching
      → IsBounded opts.max_batch c'.batching
  kept c c' p h = ground (arith, p)

pub record IsWithin (opts : Options) (s : System) : Type 0 where
  pub size : IsBounded opts.max_batch s.client.batching
  pub sent : length (in_flight s.flight) ≤ opts.max_batch

length-take : {A : Type 0} (n : ℕ) (xs : List A) → length (take n xs) ≤ n
length-take zero xs = omega arith
length-take (suc n) [] = omega arith
length-take (suc n) (x ∷ xs) = ground (arith, length-take n xs)

module _ (opts : Options) (env : Env) where
  batching-set_status :
      (st : SyncStatus) (c : Client) → (set_status opts env st c).batching ≡ c.batching
  unfolding set_status
  batching-set_status synced c = refl
  batching-set_status syncing c = refl
  batching-set_status _ c = ground arith

  pub batching-mark_syncing : (c : Client) → (mark_syncing opts env c).batching ≡ c.batching
  unfolding mark_syncing
  batching-mark_syncing c = ground arith

  push_next-IsWithin :
      (owed : Notices) (c : Client)
      → IsBounded opts.max_batch c.batching
      → IsWithin opts (push_next opts env owed c)
  unfolding push_next
  push_next-IsWithin owed c h = record {
    size = h;
    sent = ground (arith, length-take c.batching.size c.queue, h.most);
  }

  pull_start-IsWithin :
      (owed : Notices) (c : Client)
      → IsBounded opts.max_batch c.batching
      → IsWithin opts (pull_start opts env owed c)
  unfolding pull_start deliver hold_back
  pull_start-IsWithin owed c h = ground (arith, batching-mark_syncing c)

  after_flush-IsWithin :
      (owed : Notices) (c : Client)
      → IsBounded opts.max_batch c.batching
      → IsWithin opts (after_flush opts env owed c)
  unfolding after_flush deliver
  after_flush-IsWithin owed c h = ground (arith, pull_start-IsWithin owed c h)

  flush_start-IsWithin :
      (c : Client)
      → IsWithin opts (record { client = c; flight = grounded })
      → IsWithin opts (flush_start opts env c)
  unfolding flush_start hold_back
  flush_start-IsWithin c h = ground (
    arith,
    push_next-IsWithin no_notices (mark_syncing opts env (record c { flushing = true })) (
        kept opts (record c { flushing = true })
          (mark_syncing opts env (record c { flushing = true }))
          (batching-mark_syncing (record c { flushing = true })) h.size),
  )

  batching-fail : (e : Failure) (c : Client) → (fail opts env e c).batching ≡ c.batching
  unfolding fail failed
  batching-fail e c = batching-set_status (failure_status e) (failed env e c)

  batching-lose_access :
      (reason : LossReason) (n : ℕ) (c : Client)
      → (lose_access opts env reason n c).batching ≡ c.batching
  unfolding lose_access stop set_status
  batching-lose_access reason n c = ground arith

  push_lost-IsWithin :
      (lost : Option LossReason) (owed : Notices) (e : Failure) (c : Client)
      → IsBounded opts.max_batch c.batching
      → IsWithin opts (push_lost opts env lost owed e c)
  unfolding push_lost
  push_lost-IsWithin none owed e c h =
      after_flush-IsWithin owed (fail opts env e c)
        (kept opts c (fail opts env e c) (batching-fail e c) h)
  push_lost-IsWithin (some reason) owed e c h = record {
    size =
        kept opts c (lose_access opts env reason (length owed.rejected) c)
          (batching-lose_access reason _ c) h;
    sent = omega arith;
  }

  batching-body_failed : (e : Failure) (c : Client) → (body_failed e c).batching ≡ c.batching
  batching-body_failed (timeout true) c = refl
  batching-body_failed _ c = refl

  push_failed-IsWithin :
      (batch : List SyncCommand) (owed : Notices) (e : Failure) (c : Client)
      → length batch ≤ opts.max_batch
      → IsBounded opts.max_batch c.batching
      → IsWithin opts (push_failed opts env batch owed e c)
  unfolding push_failed
  push_failed-IsWithin batch owed e c k h =
      push_lost-IsWithin (lost_access_reason e) owed e (shrink opts env batch e (body_failed e c)) (
        shrunk-IsBounded opts.max_batch (length batch) e _ k
          (kept opts c (body_failed e c) (batching-body_failed e c) h))

  batching-pull_lost :
      (lost : Option LossReason) (owed : Notices) (e : Failure) (c : Client)
      → (pull_lost opts env lost owed e c).batching ≡ c.batching
  unfolding pull_lost
  batching-pull_lost none owed e c = batching-fail e c
  batching-pull_lost (some reason) owed e c = batching-lose_access reason _ c

  pull_failed-IsWithin :
      (owed : Notices) (e : Failure) (c : Client)
      → IsBounded opts.max_batch c.batching
      → IsWithin opts (pull_failed opts env owed e c)
  unfolding pull_failed deliver
  pull_failed-IsWithin owed e c h = ground (
    arith,
    batching-pull_lost (lost_access_reason e) owed e (body_failed e c),
    batching-body_failed e c,
  )

  batching-pull_round :
      (resp : SyncResponse) (c : Client) → (pull_round opts env resp c).batching ≡ c.batching
  unfolding pull_round set_status persist_token persist_replica clear_needs_full_sync apply_response
  batching-pull_round resp c = ground arith

  batching-fold_in :
      (batch : List SyncCommand) (resp : SyncResponse) (c : Client)
      → (fold_in opts env batch resp c).batching ≡ passed opts.max_batch (length batch) c.batching
  unfolding fold_in persist_queue persist_token persist_replica clear_needs_full_sync apply_response
  batching-fold_in batch resp c = ground arith

  batching-marked : (xs : List RejectedCommand) (c : Client) → (marked xs c).batching ≡ c.batching
  unfolding mark_needs_full_sync
  batching-marked [] c = refl
  batching-marked (x ∷ xs) c = ground arith

  pub push_round-IsBounded :
      (batch : List SyncCommand) (resp : SyncResponse) (c : Client)
      → IsBounded opts.max_batch c.batching
      → IsBounded opts.max_batch (push_round opts env batch resp c).batching
  unfolding push_round
  push_round-IsBounded batch resp c h =
      let c1 = body_read opts c in
      let c2 = marked (rejected_in batch resp) c1 in
      let h2 = kept opts c1 c2 (batching-marked (rejected_in batch resp) c1) h in
      let h3 = passed-IsBounded opts.max_batch (length batch) c2.batching h2 in
      ground (arith, h3, batching-fold_in batch resp c2)

  push_more-IsWithin :
      (queue : List SyncCommand) (owed : Notices) (c : Client)
      → IsBounded opts.max_batch c.batching
      → IsWithin opts (push_more opts env queue owed c)
  unfolding push_more
  push_more-IsWithin [] owed c h =
      let c' = set_status opts env synced c in
      after_flush-IsWithin owed (record c' { flushing = false })
        (kept opts c c' (batching-set_status synced c) h)
  push_more-IsWithin (cmd ∷ queue) owed c h = push_next-IsWithin owed c h

  push_answer-IsWithin :
      (batch : List SyncCommand) (owed : Notices) (resp : SyncResponse) (c : Client)
      → IsBounded opts.max_batch c.batching
      → IsWithin opts (push_answer opts env batch owed resp c)
  unfolding push_answer
  push_answer-IsWithin batch owed resp c h =
      let c' = push_round opts env batch resp c in
      ground (
        arith,
        after_flush-IsWithin owed (record (body_read opts c) { flushing = false }) h,
        push_more-IsWithin c'.queue (noted batch resp owed) c'
            (push_round-IsBounded batch resp c h),
      )

-- Every step keeps the batch size within its bounds and sends at most the largest batch.
Step-IsWithin : (opts : Options) (s t : System) → IsWithin opts s → Step opts s t → IsWithin opts t
unfolding mutate persist_queue persist_replica start stop close timer_fired reset_retry
Step-IsWithin opts s t h (edit env fresh input _) = ground arith
Step-IsWithin opts s t h (starts _) = ground arith
Step-IsWithin opts s t h (stops _) = ground arith
Step-IsWithin opts s t h (closes _) = ground arith
Step-IsWithin opts s t h (wakes _) = ground arith
Step-IsWithin opts s t h (fires _) = ground arith
Step-IsWithin opts s t h (flushes env c) = flush_start-IsWithin opts env c h
Step-IsWithin opts s t h (pulls env c) = pull_start-IsWithin opts env no_notices c h.size
Step-IsWithin opts s t h (push_answered env batch owed resp c) =
    push_answer-IsWithin opts env batch owed resp c h.size
Step-IsWithin opts s t h (push_fails env batch owed e c) =
    push_failed-IsWithin opts env batch owed e c h.sent h.size
Step-IsWithin opts s t h (pull_answered env owed resp c k) =
    unfold pull_answer deliver in ground (arith, batching-pull_round opts env resp c)
Step-IsWithin opts s t h (pull_fails env owed e c) = pull_failed-IsWithin opts env owed e c h.size

-- In every run that starts from any storage, the size of the next batch lies between the least and the
-- largest one; while a size `n` that timed out is remembered, it is the least one or below `n` by at
-- least that; and the batch in flight has at most the largest number of commands.
pub Reach-IsWithin :
    (opts : Options) (disk : Disk) (s : System) → Reach opts disk s → IsWithin opts s
unfolding booted hydrate
Reach-IsWithin opts disk s boot = ground arith
Reach-IsWithin opts disk s (next r step) =
    Step-IsWithin opts _ s (Reach-IsWithin opts disk _ r) step

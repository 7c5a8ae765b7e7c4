-- ===== src/Sync/Client/Durable/Same.antt =====
-- The handlers of packages/sync-client/src/client.ts that change neither the data nor the storage.
use balu_todo.Prelude.{arith, true}
use balu_todo.Sync.Protocol.{SyncStatus, synced, syncing, Failure, timeout, failure_status}
use balu_todo.Sync.Client.State.{Client, Options, Env}
use balu_todo.Sync.Client.Retry.{set_status, failed, mark_syncing, hold_back}
use balu_todo.Sync.Client.Engine.{
  Notices, deliver, pull_start, after_flush, push_next, flush_start, fail, body_failed,
}
use balu_todo.Sync.Client.Durable.{IsSame}

module _ (opts : Options) (env : Env) where
  pub set_status-IsSame : (st : SyncStatus) (c : Client) → IsSame c (set_status opts env st c)
  unfolding set_status
  set_status-IsSame synced c = ground arith
  set_status-IsSame syncing c = ground arith
  set_status-IsSame _ c = ground arith

  pub fail-IsSame : (e : Failure) (c : Client) → IsSame c (fail opts env e c)
  unfolding fail failed
  fail-IsSame e c =
      let s = set_status-IsSame (failure_status e) (failed env e c) in ground (arith, s)

  pub hold_back-IsSame : (c : Client) → IsSame c (hold_back env c)
  unfolding hold_back
  hold_back-IsSame c = ground arith

  pub deliver-IsSame : (owed : Notices) (c : Client) → IsSame c (deliver opts env owed c)
  unfolding deliver
  deliver-IsSame owed c = ground arith

  pub mark_syncing-IsSame : (c : Client) → IsSame c (mark_syncing opts env c)
  unfolding mark_syncing
  mark_syncing-IsSame c = ground (arith, set_status-IsSame syncing c)

  pub pull_start-IsSame :
      (owed : Notices) (c : Client) → IsSame c (pull_start opts env owed c).client
  unfolding pull_start
  pull_start-IsSame owed c = ground (
    arith,
    deliver-IsSame owed c,
    deliver-IsSame owed (hold_back env c),
    hold_back-IsSame c,
    mark_syncing-IsSame c,
  )

  pub after_flush-IsSame :
      (owed : Notices) (c : Client) → IsSame c (after_flush opts env owed c).client
  unfolding after_flush
  after_flush-IsSame owed c = ground (arith, deliver-IsSame owed c, pull_start-IsSame owed c)

  pub flush_start-IsSame : (c : Client) → IsSame c (flush_start opts env c).client
  unfolding flush_start push_next
  flush_start-IsSame c =
      ground (arith, hold_back-IsSame c, mark_syncing-IsSame (record c { flushing = true }))

  pub body_failed-IsSame : (e : Failure) (c : Client) → IsSame c (body_failed e c)
  body_failed-IsSame (timeout true) c = ground arith
  body_failed-IsSame _ c = ground arith

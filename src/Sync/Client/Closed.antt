-- ===== src/Sync/Client/Closed.antt =====
-- The steps of a closed client of packages/sync-client/src/client.ts.
use balu_todo.Prelude.{ℕ, ◌≡◌, ◌∙◌, true, false, Option, none, some, List, arith}
use balu_todo.Domain.Types.{SyncCommand}
use balu_todo.Sync.Protocol.{
  SyncStatus, synced, syncing, Failure, timeout, SyncResponse, LossReason, lost_access_reason,
  failure_status,
}
use balu_todo.Sync.Client.State.{Client, Options, Env}
use balu_todo.Sync.Client.Mutate.{mutate}
use balu_todo.Sync.Client.Retry.{set_status, failed}
use balu_todo.Sync.Client.Engine.{
  System, Notices, no_notices, shrink, deliver, pull_start, after_flush, flush_start, push_answer,
  push_failed, pull_answer, pull_failed, fail, lose_access, push_lost, pull_lost, body_read,
  body_failed, stop, close,
}
use balu_todo.Sync.Client.Steps.{
  start, timer_fired, Step, edit, starts, stops, closes, wakes, fires, flushes, pulls,
  push_answered, push_fails, pull_answered, pull_fails,
}

-- What a closed client must not touch is in `c'` as in `c`.
pub record IsSilentAs (c c' : Client) : Type 0 where
  pub closed : c'.closed ≡ true
  pub disk : c'.disk ≡ c.disk
  pub reports : c'.reports ≡ c.reports

IsSilentAs-trans : (a b c : Client) → IsSilentAs a b → IsSilentAs b c → IsSilentAs a c
IsSilentAs-trans a b c h k = ground arith

module _ (opts : Options) (env : Env) where
  set_status-IsSilentAs :
      (st : SyncStatus) (c : Client) → c.closed ≡ true → IsSilentAs c (set_status opts env st c)
  unfolding set_status
  set_status-IsSilentAs synced c h = ground arith
  set_status-IsSilentAs syncing c h = ground arith
  set_status-IsSilentAs _ c h = ground arith

  deliver-IsSilentAs :
      (owed : Notices) (c : Client) → c.closed ≡ true → IsSilentAs c (deliver opts env owed c)
  unfolding deliver
  deliver-IsSilentAs owed c h = ground arith

  pull_start-IsSilentAs :
      (owed : Notices) (c : Client)
      → c.closed ≡ true
      → IsSilentAs c (pull_start opts env owed c).client
  unfolding pull_start
  pull_start-IsSilentAs owed c h = ground (arith, deliver-IsSilentAs owed c h)

  after_flush-IsSilentAs :
      (owed : Notices) (c : Client)
      → c.closed ≡ true
      → IsSilentAs c (after_flush opts env owed c).client
  unfolding after_flush
  after_flush-IsSilentAs owed c h =
      ground (arith, deliver-IsSilentAs owed c h, pull_start-IsSilentAs owed c h)

  flush_start-IsSilentAs :
      (c : Client) → c.closed ≡ true → IsSilentAs c (flush_start opts env c).client
  unfolding flush_start
  flush_start-IsSilentAs c h = ground arith

  fail-IsSilentAs : (e : Failure) (c : Client) → c.closed ≡ true → IsSilentAs c (fail opts env e c)
  unfolding fail failed
  fail-IsSilentAs e c h =
      IsSilentAs-trans c (failed env e c) (fail opts env e c) (ground arith)
        (set_status-IsSilentAs (failure_status e) (failed env e c) h)

  fail_flush-IsSilentAs :
      (owed : Notices) (e : Failure) (c : Client)
      → c.closed ≡ true
      → IsSilentAs c (after_flush opts env owed (fail opts env e c)).client
  fail_flush-IsSilentAs owed e c h =
      let before = fail-IsSilentAs e c h in
      IsSilentAs-trans c (fail opts env e c) _ before
        (after_flush-IsSilentAs owed (fail opts env e c) before.closed)

  body_failed-IsSilentAs :
      (e : Failure) (c : Client) → c.closed ≡ true → IsSilentAs c (body_failed e c)
  body_failed-IsSilentAs (timeout true) c h = ground arith
  body_failed-IsSilentAs _ c h = ground arith

  lose_access-IsSilentAs :
      (reason : LossReason) (n : ℕ) (c : Client)
      → c.closed ≡ true
      → IsSilentAs c (lose_access opts env reason n c)
  unfolding lose_access
  lose_access-IsSilentAs reason n c h = ground arith

  push_lost-IsSilentAs :
      (lost : Option LossReason) (owed : Notices) (e : Failure) (c : Client)
      → c.closed ≡ true
      → IsSilentAs c (push_lost opts env lost owed e c).client
  unfolding push_lost
  push_lost-IsSilentAs none owed e c h = fail_flush-IsSilentAs owed e c h
  push_lost-IsSilentAs (some reason) owed e c h = lose_access-IsSilentAs reason _ c h

  push_failed-IsSilentAs :
      (batch : List SyncCommand) (owed : Notices) (e : Failure) (c : Client)
      → c.closed ≡ true
      → IsSilentAs c (push_failed opts env batch owed e c).client
  unfolding push_failed
  push_failed-IsSilentAs batch owed e c h =
      let before = body_failed-IsSilentAs e c h in
      let c2 = shrink opts env batch e (body_failed e c) in
      let after = push_lost-IsSilentAs (lost_access_reason e) owed e c2 before.closed in
      record {
        closed = after.closed;
        disk = after.disk ∙ before.disk;
        reports = after.reports ∙ before.reports;
      }

  pull_lost-IsSilentAs :
      (lost : Option LossReason) (owed : Notices) (e : Failure) (c : Client)
      → c.closed ≡ true
      → IsSilentAs c (pull_lost opts env lost owed e c)
  unfolding pull_lost
  pull_lost-IsSilentAs none owed e c h = fail-IsSilentAs e c h
  pull_lost-IsSilentAs (some reason) owed e c h = lose_access-IsSilentAs reason _ c h

  pull_failed-IsSilentAs :
      (owed : Notices) (e : Failure) (c : Client)
      → c.closed ≡ true
      → IsSilentAs c (pull_failed opts env owed e c).client
  unfolding pull_failed
  pull_failed-IsSilentAs owed e c h =
      let c1 = body_failed e c in
      let c2 = pull_lost opts env (lost_access_reason e) owed e c1 in
      let first = body_failed-IsSilentAs e c h in
      let second = pull_lost-IsSilentAs (lost_access_reason e) owed e c1 first.closed in
      IsSilentAs-trans c c2 _ (IsSilentAs-trans c c1 c2 first second)
        (deliver-IsSilentAs owed c2 second.closed)

  push_answer-IsSilentAs :
      (batch : List SyncCommand) (owed : Notices) (resp : SyncResponse) (c : Client)
      → c.closed ≡ true
      → IsSilentAs c (push_answer opts env batch owed resp c).client
  unfolding push_answer
  push_answer-IsSilentAs batch owed resp c h =
      let c' = record (body_read opts c) { flushing = false } in
      let after = after_flush-IsSilentAs owed c' h in
      ground (arith, h, after.closed, after.disk, after.reports)

-- Whatever happens after `close`, the storage and what the app was told stay as they were.
pub Step-IsSilentAs :
    (opts : Options) (s t : System)
    → s.client.closed ≡ true
    → Step opts s t
    → IsSilentAs s.client t.client
unfolding mutate start stop close timer_fired
Step-IsSilentAs opts s t h (edit env fresh input _) = ground arith
Step-IsSilentAs opts s t h (starts _) = ground arith
Step-IsSilentAs opts s t h (stops _) = ground arith
Step-IsSilentAs opts s t h (closes _) = ground arith
Step-IsSilentAs opts s t h (wakes _) = ground arith
Step-IsSilentAs opts s t h (fires _) = ground arith
Step-IsSilentAs opts s t h (flushes env c) = flush_start-IsSilentAs opts env c h
Step-IsSilentAs opts s t h (pulls env c) = pull_start-IsSilentAs opts env no_notices c h
Step-IsSilentAs opts s t h (push_answered env batch owed resp c) =
    push_answer-IsSilentAs opts env batch owed resp c h
Step-IsSilentAs opts s t h (push_fails env batch owed e c) =
    push_failed-IsSilentAs opts env batch owed e c h
Step-IsSilentAs opts s t h (pull_answered env owed resp c k) = unfold pull_answer in ground arith
Step-IsSilentAs opts s t h (pull_fails env owed e c) = pull_failed-IsSilentAs opts env owed e c h

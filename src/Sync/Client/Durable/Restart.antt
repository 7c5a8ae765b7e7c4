-- ===== src/Sync/Client/Durable/Restart.antt =====
-- A new client over the storage that a run of packages/sync-client/src/client.ts leaves.
use mathlib.Core.Path.{subst}
use balu_todo.Prelude.{ℕ, ◌≡◌, refl, sym, arith, [], ◌∷◌, List, some, none, Option, false}
use balu_todo.Domain.Types.{SyncCommand}
use balu_todo.Sync.Replica.{empty_replica}
use balu_todo.Sync.Replica.Stored.{IsKeyedReplica}
use balu_todo.Sync.Protocol.{synced, Failure, SyncResponse, LossReason, lost_access_reason}
use balu_todo.Sync.Client.State.{Client, Options, Env, Disk, new_client}
use balu_todo.Sync.Client.Retry.{reset_retry, set_status, schedule_retry}
use balu_todo.Sync.Client.Engine.{
  System, Notices, no_notices, shrink, push_next, push_more, push_round, push_answer, push_failed,
  pull_answer, pull_failed, fail, lose_access, push_lost, pull_lost, body_read, body_failed, stop,
  close, pull_round, noted,
}
use balu_todo.Sync.Client.Storage.{silent, hydrate}
use balu_todo.Sync.Client.Steps.{
  Reach, Step, boot, next, booted, start, timer_fired, edit, starts, stops, closes, wakes, fires,
  flushes, pulls, push_answered, push_fails, pull_answered, pull_fails,
}
use balu_todo.Sync.Client.Response.Keyed.{read_replica-IsKeyedReplica}
use balu_todo.Sync.Client.Durable.{
  token_of, IsDurable, IsSame-IsDurable, silent-IsDurable, token_of_again,
}
use balu_todo.Sync.Client.Durable.Same.{
  set_status-IsSame, fail-IsSame, deliver-IsSame, pull_start-IsSame, after_flush-IsSame,
  flush_start-IsSame, body_failed-IsSame,
}
use balu_todo.Sync.Client.Durable.Edits.{
  mutate-IsDurable, push_round-IsDurable, pull_round-IsDurable,
}

module _ (opts : Options) (env : Env) where
  lose_access-IsDurable :
      (reason : LossReason) (n : ℕ) (c : Client)
      → IsDurable c
      → IsDurable (lose_access opts env reason n c)
  unfolding lose_access stop reset_retry set_status schedule_retry
  lose_access-IsDurable reason n c h =
      let c' = lose_access opts env reason n c in
      let same : c'.replica ≡ c.replica = ground arith in
      silent-IsDurable c' (ground arith) (ground (arith, h.hydrated))
        (subst IsKeyedReplica (sym same) h.keyed)

  push_lost-IsDurable :
      (lost : Option LossReason) (owed : Notices) (e : Failure) (c : Client)
      → IsDurable c
      → IsDurable (push_lost opts env lost owed e c).client
  unfolding push_lost
  push_lost-IsDurable none owed e c h =
      let c' = fail opts env e c in
      IsSame-IsDurable c' _ (after_flush-IsSame opts env owed c')
        (IsSame-IsDurable c c' (fail-IsSame opts env e c) h)
  push_lost-IsDurable (some reason) owed e c h = lose_access-IsDurable reason _ c h

  push_failed-IsDurable :
      (batch : List SyncCommand) (owed : Notices) (e : Failure) (c : Client)
      → IsDurable c
      → IsDurable (push_failed opts env batch owed e c).client
  unfolding push_failed
  push_failed-IsDurable batch owed e c h =
      let c1 = body_failed e c in
      let c2 = shrink opts env batch e c1 in
      push_lost-IsDurable (lost_access_reason e) owed e c2 (
        IsSame-IsDurable c1 c2 (ground arith)
          (IsSame-IsDurable c c1 (body_failed-IsSame opts env e c) h))

  pull_lost-IsDurable :
      (lost : Option LossReason) (owed : Notices) (e : Failure) (c : Client)
      → IsDurable c
      → IsDurable (pull_lost opts env lost owed e c)
  unfolding pull_lost
  pull_lost-IsDurable none owed e c h = IsSame-IsDurable c _ (fail-IsSame opts env e c) h
  pull_lost-IsDurable (some reason) owed e c h = lose_access-IsDurable reason _ c h

  pull_failed-IsDurable :
      (owed : Notices) (e : Failure) (c : Client)
      → IsDurable c
      → IsDurable (pull_failed opts env owed e c).client
  unfolding pull_failed
  pull_failed-IsDurable owed e c h =
      let c1 = body_failed e c in
      let c2 = pull_lost opts env (lost_access_reason e) owed e c1 in
      IsSame-IsDurable c2 _ (deliver-IsSame opts env owed c2) (
        pull_lost-IsDurable (lost_access_reason e) owed e c1
          (IsSame-IsDurable c c1 (body_failed-IsSame opts env e c) h))

  push_more-IsDurable :
      (queue : List SyncCommand) (owed : Notices) (c : Client)
      → IsDurable c
      → IsDurable (push_more opts env queue owed c).client
  unfolding push_more push_next
  push_more-IsDurable [] owed c h =
      let c1 = set_status opts env synced c in
      let c2 = record c1 { flushing = false } in
      let h2 =
        IsSame-IsDurable c1 c2 (ground arith)
          (IsSame-IsDurable c c1 (set_status-IsSame opts env synced c) h) in
      IsSame-IsDurable c2 _ (after_flush-IsSame opts env owed c2) h2
  push_more-IsDurable (cmd ∷ queue) owed c h = h

  push_answer-IsDurable :
      (batch : List SyncCommand) (owed : Notices) (resp : SyncResponse) (c : Client)
      → IsDurable c
      → IsDurable (push_answer opts env batch owed resp c).client
  unfolding push_answer
  push_answer-IsDurable batch owed resp c h =
      let c' = push_round opts env batch resp c in
      let c2 = record (body_read opts c) { flushing = false } in
      let h2 = IsSame-IsDurable c c2 (ground arith) h in
      ground (
        arith,
        IsSame-IsDurable c2 _ (after_flush-IsSame opts env owed c2) h2,
        push_more-IsDurable c'.queue (noted batch resp owed) c'
            (push_round-IsDurable opts env batch resp c h),
      )

  pull_answer-IsDurable :
      (owed : Notices) (resp : SyncResponse) (c : Client)
      → resp.temp_id_mapping ≡ []
      → IsDurable c
      → IsDurable (pull_answer opts env owed resp c).client
  unfolding pull_answer
  pull_answer-IsDurable owed resp c empty h =
      let c1 = pull_round opts env resp c in
      let h1 = pull_round-IsDurable opts env resp c empty h in
      ground (
        arith,
        IsSame-IsDurable c (body_read opts c) (ground arith) h,
        IsSame-IsDurable c1 _ (deliver-IsSame opts env owed c1) h1,
      )

Step-IsDurable :
    (opts : Options) (s t : System) → IsDurable s.client → Step opts s t → IsDurable t.client
unfolding start stop close timer_fired reset_retry
Step-IsDurable opts s t h (edit env fresh input _) =
    mutate-IsDurable opts env fresh input s.client h
Step-IsDurable opts s t h (starts _) = IsSame-IsDurable s.client t.client (ground arith) h
Step-IsDurable opts s t h (stops _) = IsSame-IsDurable s.client t.client (ground arith) h
Step-IsDurable opts s t h (closes _) = IsSame-IsDurable s.client t.client (ground arith) h
Step-IsDurable opts s t h (wakes _) = IsSame-IsDurable s.client t.client (ground arith) h
Step-IsDurable opts s t h (fires _) = IsSame-IsDurable s.client t.client (ground arith) h
Step-IsDurable opts s t h (flushes env c) = IsSame-IsDurable c _ (flush_start-IsSame opts env c) h
Step-IsDurable opts s t h (pulls env c) =
    IsSame-IsDurable c _ (pull_start-IsSame opts env no_notices c) h
Step-IsDurable opts s t h (push_answered env batch owed resp c) =
    push_answer-IsDurable opts env batch owed resp c h
Step-IsDurable opts s t h (push_fails env batch owed e c) =
    push_failed-IsDurable opts env batch owed e c h
Step-IsDurable opts s t h (pull_answered env owed resp c k) =
    pull_answer-IsDurable opts env owed resp c k h
Step-IsDurable opts s t h (pull_fails env owed e c) = pull_failed-IsDurable opts env owed e c h

Reach-IsDurable :
    (opts : Options) (disk : Disk) (s : System) → Reach opts disk s → IsDurable s.client
unfolding booted hydrate
Reach-IsDurable opts disk s boot = record {
  hydrated = refl;
  keyed = read_replica-IsKeyedReplica disk.replica empty_replica (record {
    projects = tt;
    sections = tt;
    tasks = tt;
    labels = tt;
    comments = tt;
    attachments = tt;
    members = tt;
  });
  queue = λ o. refl;
  replica = λ o. refl;
  token = λ o. token_of_again disk.token;
  marker = λ o. refl;
}
Reach-IsDurable opts disk s (next r step) =
    Step-IsDurable opts _ s (Reach-IsDurable opts disk _ r) step

-- What a client that reads the storage of `c` starts with, after `hydrate`, is what `c` holds.
pub record IsRestored (c c' : Client) : Type 0 where
  pub queue : c'.queue ≡ c.queue
  pub replica : c'.replica ≡ c.replica
  pub token : c'.sync_token ≡ token_of (some c.sync_token)
  pub marker : c'.needs_full_sync ≡ c.needs_full_sync

-- After any step of a run from any storage, a new client that reads the storage of the first one has
-- the same queue, the same replica and the same full-sync marker, and the same token unless that was
-- empty, if the first client is neither closed nor without access. The answer to a pull names no new
-- ids.
pub Reach-IsRestored :
    (opts : Options) (disk : Disk) (s : System)
    → Reach opts disk s
    → silent s.client ≡ false
    → IsRestored s.client (hydrate (new_client opts s.client.disk))
unfolding hydrate
Reach-IsRestored opts disk s r o =
    let h = Reach-IsDurable opts disk s r in
    record { queue = h.queue o; replica = h.replica o; token = h.token o; marker = h.marker o }

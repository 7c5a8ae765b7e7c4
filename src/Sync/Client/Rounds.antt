-- ===== src/Sync/Client/Rounds.antt =====
-- What one answered push or pull does to the queue, the replica and the full-sync marker.
use balu_todo.Prelude.{
  String, ◌≡◌, refl, ap, ◌∙◌, Bool, true, false, ◌||◌, List, [], ◌∷◌, ◌++◌, map, member, arith,
  some, eq_refl, All, if◌then◌else◌,
}
use balu_todo.Domain.Types.{SyncCommand}
use balu_todo.Sync.Replica.{serialize_replica}
use balu_todo.Sync.Protocol.{SyncResponse, RejectedCommand}
use balu_todo.Sync.Client.State.{Client, Options, Env, stored}
use balu_todo.Sync.Client.Response.{
  rejected_in, settled, apply_response, apply_all, server_replica, merged,
}
use balu_todo.Sync.Client.Storage.{
  silent, persist_queue, persist_token, persist_replica, mark_needs_full_sync,
  clear_needs_full_sync,
}
use balu_todo.Sync.Client.Engine.{unsent, push_round, fold_in, marked, body_read}

abbrev pub uuids : List SyncCommand → List String
uuids batch = map (λ (b : SyncCommand). b.uuid) batch

-- The uuid of `cmd` is none of those of `batch`.
abbrev pub IsNew : List SyncCommand → SyncCommand → Type 0
IsNew batch cmd = member cmd.uuid (uuids batch) ≡ false

-- What is not among the sent commands stays.
unsent_new : (sent rest : List SyncCommand) → All (IsNew sent) rest → unsent sent rest ≡ rest
unfolding unsent
unsent_new sent [] h = refl
unsent_new sent (cmd ∷ rest) (p, h) = rw p (ap (λ l. cmd ∷ l) (unsent_new sent rest h))

abbrev IsSent : List SyncCommand → SyncCommand → Type 0
IsSent sent cmd = member cmd.uuid (uuids sent) ≡ true

-- What is among the sent commands goes.
unsent_sent :
    (sent batch rest : List SyncCommand)
    → All (IsSent sent) batch
    → unsent sent (batch ++ rest) ≡ unsent sent rest
unfolding unsent
unsent_sent sent [] rest h = refl
unsent_sent sent (cmd ∷ batch) rest (p, h) = rw p (unsent_sent sent batch rest h)

IsSent-cons :
    (cmd : SyncCommand) (sent batch : List SyncCommand)
    → All (IsSent sent) batch
    → All (IsSent (cmd ∷ sent)) batch
IsSent-cons cmd sent [] h = tt
IsSent-cons cmd sent (b ∷ batch) (p, h) = (ground (arith, p), IsSent-cons cmd sent batch h)

IsSent-self : (sent : List SyncCommand) → All (IsSent sent) sent
IsSent-self [] = tt
IsSent-self (cmd ∷ sent) =
    (ground (arith, eq_refl cmd.uuid), IsSent-cons cmd sent sent (IsSent-self sent))

unsent-append :
    (batch rest : List SyncCommand) → All (IsNew batch) rest → unsent batch (batch ++ rest) ≡ rest
unsent-append batch rest h =
    unsent_sent batch batch rest (IsSent-self batch) ∙ unsent_new batch rest h

-- Whether an answer refuses a command of the batch.
abbrev pub refuses : List RejectedCommand → Bool
refuses [] = false
refuses (x ∷ xs) = true

queue-marked : (xs : List RejectedCommand) (c : Client) → (marked xs c).queue ≡ c.queue
unfolding mark_needs_full_sync
queue-marked [] c = refl
queue-marked (x ∷ xs) c = ground arith

pub silent-marked : (xs : List RejectedCommand) (c : Client) → silent (marked xs c) ≡ silent c
unfolding mark_needs_full_sync
silent-marked [] c = refl
silent-marked (x ∷ xs) c = ground arith

-- What an answered push leaves, of the client `c'` that it makes of `c`: `rest` is what was queued
-- behind the batch.
pub record IsPushed (env : Env) (batch rest : List SyncCommand) (resp : SyncResponse)
    (c c' : Client) : Type 0 where
  pub queue : c'.queue ≡ settled resp rest
  pub queue_on_disk : c'.disk.queue ≡ stored (settled resp rest)
  pub replica :
      resp.full_sync ≡ true
      → c'.replica ≡ apply_all env.ctx (server_replica resp) (settled resp rest)
  pub merged : resp.full_sync ≡ false → c'.replica ≡ merged c.replica resp
  pub replica_on_disk : c'.disk.replica ≡ stored (serialize_replica c'.replica)
  pub token : c'.sync_token ≡ resp.sync_token
  pub token_on_disk : c'.disk.token ≡ some c'.sync_token
  pub marker :
      c'.needs_full_sync
      ≡ (if resp.full_sync then false else refuses (rejected_in batch resp) || c.needs_full_sync)
  pub marker_on_disk :
      c.disk.needs_full_sync ≡ c.needs_full_sync → c'.disk.needs_full_sync ≡ c'.needs_full_sync

replica-marked : (xs : List RejectedCommand) (c : Client) → (marked xs c).replica ≡ c.replica
unfolding mark_needs_full_sync
replica-marked [] c = refl
replica-marked (x ∷ xs) c = ground arith

marker-marked :
    (xs : List RejectedCommand) (c : Client)
    → silent c ≡ false
    → (marked xs c).needs_full_sync ≡ (refuses xs || c.needs_full_sync)
unfolding mark_needs_full_sync
marker-marked [] c h = refl
marker-marked (x ∷ xs) c h = ground arith

marker_on_disk-marked :
    (xs : List RejectedCommand) (c : Client)
    → silent c ≡ false
    → c.disk.needs_full_sync ≡ c.needs_full_sync
    → (marked xs c).disk.needs_full_sync ≡ (marked xs c).needs_full_sync
unfolding mark_needs_full_sync
marker_on_disk-marked [] c h e = e
marker_on_disk-marked (x ∷ xs) c h e = ground arith

-- The same of a round behind the marking.
record IsFolded (env : Env) (rest : List SyncCommand) (resp : SyncResponse) (c c' : Client)
    : Type 0 where
  queue : c'.queue ≡ settled resp rest
  queue_on_disk : c'.disk.queue ≡ stored (settled resp rest)
  replica :
      resp.full_sync ≡ true
      → c'.replica ≡ apply_all env.ctx (server_replica resp) (settled resp rest)
  merged : resp.full_sync ≡ false → c'.replica ≡ merged c.replica resp
  replica_on_disk : c'.disk.replica ≡ stored (serialize_replica c'.replica)
  token : c'.sync_token ≡ resp.sync_token
  token_on_disk : c'.disk.token ≡ some c'.sync_token
  marker : c'.needs_full_sync ≡ (if resp.full_sync then false else c.needs_full_sync)
  marker_on_disk :
      c.disk.needs_full_sync ≡ c.needs_full_sync → c'.disk.needs_full_sync ≡ c'.needs_full_sync

fold_in-IsFolded :
    (opts : Options) (env : Env) (batch rest : List SyncCommand) (resp : SyncResponse) (c : Client)
    → silent c ≡ false
    → unsent batch c.queue ≡ rest
    → IsFolded env rest resp c (fold_in opts env batch resp c)
unfolding fold_in persist_queue persist_token persist_replica clear_needs_full_sync apply_response
fold_in-IsFolded opts env batch rest resp c active e = record {
  queue = ground (arith, active, e);
  queue_on_disk = ground (arith, active, e);
  replica = λ h. ground (arith, active, e);
  merged = λ h. ground (arith, active, e);
  replica_on_disk = ground (arith, active, e);
  token = ground (arith, active, e);
  token_on_disk = ground (arith, active, e);
  marker = ground (arith, active, e);
  marker_on_disk = λ h. ground (arith, active, e);
}

-- An answered push takes exactly its batch off the queue, whatever was queued meanwhile, and the
-- storage follows. A full answer leaves the server's state with the rest of the queue applied to it;
-- only a full answer lifts the marker that a refusal sets.
pub push_round-IsPushed :
    (opts : Options) (env : Env) (batch rest : List SyncCommand) (resp : SyncResponse) (c : Client)
    → silent c ≡ false
    → c.queue ≡ batch ++ rest
    → All (IsNew batch) rest
    → IsPushed env batch rest resp c (push_round opts env batch resp c)
unfolding push_round mark_needs_full_sync
push_round-IsPushed opts env batch rest resp c active e new =
    let xs = rejected_in batch resp in
    let c1 = marked xs (body_read opts c) in
    let f =
      fold_in-IsFolded opts env batch rest resp c1 (silent-marked xs (body_read opts c) ∙ active) (
        ap (unsent batch) (queue-marked xs (body_read opts c) ∙ e)
        ∙ unsent-append batch rest new) in
    record {
      queue = f.queue;
      queue_on_disk = f.queue_on_disk;
      replica = f.replica;
      merged = λ h. f.merged h ∙ ap (λ r. merged r resp) (replica-marked xs (body_read opts c));
      replica_on_disk = f.replica_on_disk;
      token = f.token;
      token_on_disk = f.token_on_disk;
      marker =
          f.marker
          ∙ ap (λ b. if resp.full_sync then false else b)
              (marker-marked xs (body_read opts c) active);
      marker_on_disk = λ h. f.marker_on_disk (marker_on_disk-marked xs (body_read opts c) active h);
    }

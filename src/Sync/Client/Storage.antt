-- ===== src/Sync/Client/Storage.antt =====
-- What packages/sync-client/src/client.ts writes to storage and reads from it. A storage write is
-- one step: what can run between its start and its end changes nothing that it writes.
pub mod Loss
use balu_todo.Prelude.{
  ℕ, Bool, true, false, ◌||◌, Option, none, some, List, [], ◌∷◌, length, max, or_else, truthy,
  if◌then◌else◌,
}
use balu_todo.Domain.Types.{SyncCommand}
use balu_todo.Sync.Replica.{Replica, SerializedReplica, serialize_replica, hydrate_replica}
use balu_todo.Sync.Protocol.{LossReason, removed}
use balu_todo.Sync.Client.State.{Cell, absent, corrupt, stored, Disk, LossNotice, Client}

abbrev pub silent : Client → Bool
silent c = c.access_lost || c.closed

unfoldable pub persist_queue : Client → Client
persist_queue c =
    if silent c then c else record c { disk = record (c.disk) { queue = stored c.queue } }

unfoldable pub persist_token : Client → Client
persist_token c =
    if silent c then c else record c { disk = record (c.disk) { token = some c.sync_token } }

unfoldable pub persist_replica : Client → Client
persist_replica c =
    if silent c
    then c
    else record c { disk = record (c.disk) { replica = stored (serialize_replica c.replica) } }

unfoldable pub mark_needs_full_sync : Client → Client
mark_needs_full_sync c =
    if silent c
    then c
    else record c { needs_full_sync = true; disk = record (c.disk) { needs_full_sync = true } }

unfoldable pub clear_needs_full_sync : Client → Client
clear_needs_full_sync c =
    if c.closed
    then record c { needs_full_sync = false }
    else record c { needs_full_sync = false; disk = record (c.disk) { needs_full_sync = false } }

abbrev pub read_queue : Cell (List SyncCommand) → List SyncCommand → List SyncCommand
read_queue absent old = old
read_queue corrupt old = []
read_queue (stored q) old = q

-- `if (t) syncToken = t`
abbrev pub read_replica : Cell SerializedReplica → Replica → Replica
read_replica (stored s) old = hydrate_replica s
read_replica cell old = old

unfoldable pub hydrate : Client → Client
hydrate c = if c.hydrated then c else record c {
  hydrated = true;
  needs_full_sync = c.disk.needs_full_sync;
  queue = read_queue c.disk.queue c.queue;
  sync_token = or_else (truthy c.disk.token) c.sync_token;
  replica = read_replica c.disk.replica c.replica;
}

-- removeWorkspaceKeys: the replica, the token and the marker, and then the queue.
abbrev pub without_replica : Disk → Disk
without_replica d = record d { replica = absent; token = none; needs_full_sync = false }

abbrev pub without_queue : Disk → Disk
without_queue d = record d { queue = absent }

abbrev pub without_notice : Disk → Disk
without_notice d = record d { loss_notice = absent }

pub record PurgedWorkspace : Type 0 where
  pub discarded : ℕ
  pub reason : LossReason

abbrev pub queued_on : Cell (List SyncCommand) → ℕ
queued_on (stored q) = length q
queued_on cell = 0

abbrev pub noticed : Cell LossNotice → ℕ → PurgedWorkspace
noticed (stored n) queued = record { discarded = max queued n.discarded; reason = n.reason }
noticed cell queued = record { discarded = queued; reason = removed }

-- purgeWorkspaceData: what it returns, and the storage that it leaves.
unfoldable pub purge_workspace_data : Disk → PurgedWorkspace × Disk
purge_workspace_data d =
    (noticed d.loss_notice (queued_on d.queue), without_notice (without_queue (without_replica d)))

-- clearLossNotice
unfoldable pub clear_loss_notice : Disk → Disk
clear_loss_notice d = without_notice d

-- The storage after each write of `loseAccess` until the app is told, in order; a kill may leave any of
-- them behind. The last write, which removes the notice once the app has the count, is not among them.
unfoldable pub loss_writes : LossReason → ℕ → Disk → List Disk
loss_writes reason discarded d =
    let noted = record d {
      loss_notice = stored (record { reason = reason; discarded = discarded });
    } in
    noted ∷ without_replica noted ∷ without_queue (without_replica noted) ∷ []

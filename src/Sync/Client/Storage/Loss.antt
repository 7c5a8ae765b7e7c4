-- ===== src/Sync/Client/Storage/Loss.antt =====
-- A kill during the purge after a loss of access, packages/sync-client/src/client.ts.
use balu_todo.Prelude.{ℕ, ◌≤◌, ◌≡◌, List, arith, length, All}
use balu_todo.Domain.Types.{SyncCommand}
use balu_todo.Sync.Protocol.{LossReason}
use balu_todo.Sync.Client.State.{Disk, stored}
use balu_todo.Sync.Client.Storage.{purge_workspace_data, loss_writes}

-- Whichever write of the purge was the last one before a kill, the purge at the next boot returns the
-- reason and the whole number of discarded changes, queued ones and others.
pub purge_workspace_data-loss_writes :
    (reason : LossReason) (discarded : ℕ) (d : Disk) (queue : List SyncCommand)
    → d.queue ≡ stored queue
    → length queue ≤ discarded
    → All
        (λ left. (purge_workspace_data left).0 ≡ record { discarded = discarded; reason = reason })
        (loss_writes reason discarded d)
unfolding purge_workspace_data loss_writes
purge_workspace_data-loss_writes reason discarded d queue e h = ground arith

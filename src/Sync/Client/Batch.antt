-- ===== src/Sync/Client/Batch.antt =====
-- The size of the batches that a flush sends, in packages/sync-client/src/client.ts.
pub mod Bounds
pub mod Flight
use balu_todo.Prelude.{
  ℕ, zero, suc, ◌+◌, ◌-◌, ◌/◌, Bool, true, ◌&&◌, Option, none, some, ltb, leb, min, max,
  if◌then◌else◌,
}
use balu_todo.Sync.Protocol.{Failure, timeout}
use balu_todo.Sync.Client.State.{Batching}

abbrev pub min_batch : ℕ → ℕ
min_batch max_batch = min 10 max_batch

abbrev ceiling_probe_ok : ℕ
ceiling_probe_ok = 5

-- The `limit` of a full batch that passed.
abbrev pub limit : ℕ → Option ℕ → ℕ
limit max_batch none = max_batch
limit max_batch (some n) = max (min_batch max_batch) (n - min_batch max_batch)

-- A full batch passed at the cap: after enough of these in a row the size that timed out is tried
-- once more.
abbrev at_cap : ℕ → Batching → Option ℕ → Batching
at_cap max_batch b none = b
at_cap max_batch b (some n) =
    if leb ceiling_probe_ok (b.ok_at_cap + 1)
    then record {
      size = min max_batch (b.size + min_batch max_batch);
      timed_out = none;
      ok_at_cap = 0;
    }
    else record b { ok_at_cap = b.ok_at_cap + 1 }

-- A batch of `sent` commands passed.
unfoldable pub passed : ℕ → ℕ → Batching → Batching
passed max_batch sent b =
    let cap = limit max_batch b.timed_out in
    if leb b.size sent
    then (if ltb b.size cap
        then record b { size = min cap (b.size + min_batch max_batch) }
        else at_cap max_batch b b.timed_out)
    else b

-- A batch of `sent` commands failed: only a timeout of a push shrinks the next one.
unfoldable pub shrunk : ℕ → ℕ → Failure → Batching → Batching
shrunk max_batch sent (timeout in_body) b =
    if ltb 0 sent
    then record {
      size = max (min_batch max_batch) (sent / 2);
      timed_out = some sent;
      ok_at_cap = 0;
    }
    else b
shrunk max_batch sent e b = b

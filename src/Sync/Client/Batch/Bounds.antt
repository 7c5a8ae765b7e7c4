-- ===== src/Sync/Client/Batch/Bounds.antt =====
-- The bounds of the batch size of packages/sync-client/src/client.ts.
use balu_todo.Prelude.{ℕ, ◌+◌, ◌≡◌, ◌⊎◌, some, ◌≤◌, arith, or_else}
use balu_todo.Sync.Protocol.{Failure, timeout}
use balu_todo.Sync.Client.State.{Batching}
use balu_todo.Sync.Client.Batch.{min_batch, passed, shrunk}

-- The size is between the least and the largest one; after a request of `n` commands timed out it is the
-- least one, or below `n` by at least that; and the size that timed out is one that may have been sent.
pub record IsBounded (max_batch : ℕ) (b : Batching) : Type 0 where
  pub least : min_batch max_batch ≤ b.size
  pub most : b.size ≤ max_batch
  pub within :
      (n : ℕ)
      → b.timed_out ≡ some n
      → (b.size ≤ min_batch max_batch) ⊎ (b.size + min_batch max_batch ≤ n)
  pub timed_out : or_else b.timed_out 0 ≤ max_batch

pub passed-IsBounded :
    (max_batch sent : ℕ) (b : Batching)
    → IsBounded max_batch b
    → IsBounded max_batch (passed max_batch sent b)
unfolding passed
passed-IsBounded max_batch sent b h = record {
  least = ground arith;
  most = ground arith;
  within = λ n e. ground (arith, h.within n);
  timed_out = ground arith;
}

pub shrunk-IsBounded :
    (max_batch sent : ℕ) (e : Failure) (b : Batching)
    → sent ≤ max_batch
    → IsBounded max_batch b
    → IsBounded max_batch (shrunk max_batch sent e b)
unfolding shrunk
shrunk-IsBounded max_batch sent (timeout in_body) b k h = ground arith
shrunk-IsBounded max_batch sent _ b k h = h

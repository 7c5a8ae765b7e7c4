-- ===== src/Sync/Client/Durable/Saved.antt =====
-- `mutate` and `wasSaved` of packages/sync-client/src/client.ts: what the app may tell the user.
use balu_todo.Prelude.{◌++◌, ◌≡◌, arith, [], ◌∷◌, some, true, false, not}
use balu_todo.Sync.Replica.Stored.{IsKeyedReplica, hydrate_replica-serialize_replica}
use balu_todo.Sync.Apply.{apply_command}
use balu_todo.Sync.Apply.Keyed.{apply_command-IsKeyedReplica}
use balu_todo.Sync.Client.State.{Client, Options, Env, new_client}
use balu_todo.Sync.Client.Storage.{silent, hydrate, persist_queue, persist_replica}
use balu_todo.Sync.Client.Mutate.{CommandInput, FreshIds, command_of, mutate, was_saved}

-- An edit of `c` that is reported as saved is in the queue and the replica of a client that starts
-- from the storage; one that is not changes nothing; and it is saved just if `c` writes.
pub record IsToldRight (opts : Options) (env : Env) (fresh : FreshIds) (input : CommandInput)
    (c : Client) : Type 0 where
  pub told : was_saved (some (mutate env fresh input c).1) ≡ not (silent c)
  pub dropped :
      was_saved (some (mutate env fresh input c).1) ≡ false → (mutate env fresh input c).0 ≡ c
  pub queue :
      was_saved (some (mutate env fresh input c).1) ≡ true
      → (hydrate (new_client opts (mutate env fresh input c).0.disk)).queue
        ≡ c.queue ++ command_of env fresh c.id_aliases input ∷ []
  pub replica :
      was_saved (some (mutate env fresh input c).1) ≡ true
      → (hydrate (new_client opts (mutate env fresh input c).0.disk)).replica
        ≡ apply_command env.ctx c.replica (command_of env fresh c.id_aliases input)

-- What `wasSaved` says of an edit is right: if it was saved, a client that starts from the storage
-- has its command at the end of its queue and its effect in its replica; if not, the client and its
-- storage are as before; and it is not saved just if the client is closed or has lost access. Each key
-- of the replica is the id of its object, once.
pub mutate-IsToldRight :
    (opts : Options) (env : Env) (fresh : FreshIds) (input : CommandInput) (c : Client)
    → IsKeyedReplica c.replica
    → IsToldRight opts env fresh input c
unfolding mutate was_saved hydrate persist_queue persist_replica
mutate-IsToldRight opts env fresh input c h =
    let cmd = command_of env fresh c.id_aliases input in
    let k = apply_command-IsKeyedReplica env.ctx c.replica cmd h in
    let back = hydrate_replica-serialize_replica (apply_command env.ctx c.replica cmd) k in
    record {
      told = ground arith;
      dropped = ground arith;
      queue = ground arith;
      replica = ground (arith, back);
    }

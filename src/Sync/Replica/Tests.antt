-- ===== src/Sync/Replica/Tests.antt =====
-- An instance of the theorem about the stored replica.
use balu_todo.Prelude.{◌≡◌}
use balu_todo.Sync.Replica.{hydrate_replica, serialize_replica}
use balu_todo.Sync.Replica.Stored.{hydrate_replica-serialize_replica}
use balu_todo.Sync.Samples.{sample, sample-IsKeyedReplica}

hydrate_replica-serialize_replica_example : hydrate_replica (serialize_replica sample) ≡ sample
hydrate_replica-serialize_replica_example =
    hydrate_replica-serialize_replica sample sample-IsKeyedReplica

-- ===== src/Sync/Client/Tests.antt =====
-- Instances of the theorems about packages/sync-client/src/client.ts.
use balu_todo.Prelude.{some, none, ◌≡◌, refl, true, false, List, [], ◌∷◌, ◌++◌, arith, All}
use balu_todo.Domain.Types.{SyncCommand, task_add}
use balu_todo.Sync.Protocol.{
  removed, lost_access_reason, failure_status, SyncResponse, Failure, http,
}
use balu_todo.Sync.Samples.{
  sample, sample_ctx, sample-IsKeyedReplica, no_args, sample_opts, sample_env, fresh_client, adding,
  empty_response,
}
use balu_todo.Sync.Client.State.{Client, Env, Disk, new_client, stored, empty_disk}
use balu_todo.Sync.Client.Durable.Restart.{IsRestored, Reach-IsRestored}
use balu_todo.Sync.Client.Drain.{IsDrained, respond, flush-IsDrained}
use balu_todo.Sync.Client.Durable.Saved.{IsToldRight, mutate-IsToldRight}
use balu_todo.Sync.Client.Response.{apply_response}
use balu_todo.Sync.Client.Response.Keyed.{apply_response-IsKeyedReplica}
use balu_todo.Sync.Replica.Stored.{IsKeyedReplica}
use balu_todo.Sync.Client.Storage.{silent, hydrate, purge_workspace_data, loss_writes}
use balu_todo.Sync.Client.Storage.Loss.{purge_workspace_data-loss_writes}
use balu_todo.Sync.Client.Engine.{
  System, grounded, push_round, push_next, flush_start, push_failed, push_lost, after_flush, fail,
  deliver, no_notices, pushing,
}
use balu_todo.Sync.Client.Steps.{
  Step, starts, start, Reach, booted, boot, next, edit, flushes, push_fails,
}
use balu_todo.Sync.Client.Mutate.{CommandInput, FreshIds, mutate}
use balu_todo.Sync.Client.Retry.{mark_syncing, hold_back, set_status, failed}
use balu_todo.Sync.Client.Batch.Flight.{IsWithin, Reach-IsWithin}
use balu_todo.Sync.Client.Storage.{persist_queue, persist_replica}
use balu_todo.Sync.Client.Closed.{IsSilentAs, Step-IsSilentAs}
use balu_todo.Sync.Client.Rounds.{IsPushed, push_round-IsPushed}

abbrev first_two : List SyncCommand
first_two = adding "1" "tmp-1" ∷ adding "2" "tmp-2" ∷ []

abbrev third : List SyncCommand
third = adding "3" "tmp-3" ∷ []

abbrev busy : Client
busy = record (fresh_client) { queue = first_two ++ third }

push_round-IsPushed_example :
    IsPushed sample_env first_two third empty_response busy
      (push_round sample_opts sample_env first_two empty_response busy)
push_round-IsPushed_example =
    push_round-IsPushed sample_opts sample_env first_two third empty_response busy refl refl
      (refl, tt)

abbrev served : Client
served = record (fresh_client) { replica = sample }

abbrev closed_system : System
closed_system = record { client = record (busy) { closed = true }; flight = grounded }

Step-IsSilentAs_example : IsSilentAs closed_system.client (start closed_system.client)
Step-IsSilentAs_example =
    Step-IsSilentAs sample_opts closed_system
      (record closed_system { client = start closed_system.client }) refl (starts closed_system)

abbrev full_disk : Disk
full_disk = record (empty_disk) { queue = stored first_two }

purge_workspace_data-loss_writes_example :
    All
      (λ left. (purge_workspace_data left).0 ≡ record { discarded = 3; reason = removed })
      (loss_writes removed 3 full_disk)
purge_workspace_data-loss_writes_example =
    purge_workspace_data-loss_writes removed 3 full_disk first_two refl (omega arith)

-- A run: the client starts, the user adds a task, and the push of it is refused for a while.
abbrev adds_task : CommandInput
adds_task = record {
  type = task_add;
  temp_id = some "tmp-1";
  args = record (no_args) { title = some "Call" };
}

abbrev ids : FreshIds
ids = record { uuid = "1"; temp_id = "tmp-9" }

abbrev edited : Client
edited = (mutate sample_env ids adds_task (start (booted sample_opts empty_disk).client)).0

abbrev busy_server : Failure
busy_server = http 429 none (some 60_000)

abbrev refused : System
refused =
    push_failed sample_opts sample_env edited.queue no_notices busy_server
      (flush_start sample_opts sample_env edited).client

refused_writes : silent refused.client ≡ false
unfolding booted flush_start mutate start push_failed push_lost after_flush fail deliver
    lost_access_reason set_status failure_status failed push_next mark_syncing
refused_writes = refl

-- The push of the task is on its way.
abbrev flown : System
flown = record {
  client = (flush_start sample_opts sample_env edited).client;
  flight = pushing edited.queue no_notices;
}

flown_run : Reach sample_opts empty_disk flown
unfolding booted flush_start mutate start push_next mark_syncing hold_back persist_queue
    persist_replica
flown_run =
    let started = next boot (starts (booted sample_opts empty_disk)) in
    let edit_made = next started (edit sample_env ids adds_task _) in
    next edit_made (flushes sample_env edited)

refusal : Step sample_opts flown refused
refusal = push_fails sample_env edited.queue no_notices busy_server flown.client

refused_run : Reach sample_opts empty_disk refused
refused_run = next flown_run refusal

Reach-IsWithin_example : IsWithin sample_opts refused
Reach-IsWithin_example = Reach-IsWithin sample_opts empty_disk refused refused_run

-- The same run: the client is killed while it waits to push again.
Reach-IsRestored_example :
    IsRestored refused.client (hydrate (new_client sample_opts refused.client.disk))
Reach-IsRestored_example =
    Reach-IsRestored sample_opts empty_disk refused refused_run refused_writes

apply_response-IsKeyedReplica_example :
    IsKeyedReplica (apply_response sample_ctx empty_response third served).replica
apply_response-IsKeyedReplica_example =
    apply_response-IsKeyedReplica sample_ctx empty_response third served sample-IsKeyedReplica

mutate-IsToldRight_example : IsToldRight sample_opts sample_env ids adds_task served
mutate-IsToldRight_example =
    mutate-IsToldRight sample_opts sample_env ids adds_task served sample-IsKeyedReplica

abbrev three_answers : List (Env × SyncResponse)
three_answers =
    (sample_env, empty_response) ∷ (sample_env, empty_response) ∷ (sample_env, empty_response) ∷ []

flush-IsDrained_example : IsDrained (first_two ++ third) (
    respond sample_opts three_answers
      (flush_start sample_opts sample_env busy).client
      (flush_start sample_opts sample_env busy).flight)
flush-IsDrained_example =
    flush-IsDrained sample_opts sample_env three_answers busy (adding "1" "tmp-1")
      (adding "2" "tmp-2" ∷ third) refl refl refl refl (omega arith) (ground arith)
      ((refl, (refl, tt)), ((refl, tt), (tt, tt))) (omega arith)

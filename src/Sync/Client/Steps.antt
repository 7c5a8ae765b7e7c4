-- ===== src/Sync/Client/Steps.antt =====
-- The runs of a client of packages/sync-client/src/client.ts, as steps: what the app calls, what the
-- timers start, and the answers of the server, in any order. The app edits and syncs after
-- `hydrate` only, as `syncOnce` does.
use balu_todo.Prelude.{◌≡◌, true, none, List, [], if◌then◌else◌}
use balu_todo.Domain.Types.{SyncCommand}
use balu_todo.Sync.Protocol.{SyncResponse, Failure}
use balu_todo.Sync.Client.State.{Client, Options, Env, Disk, new_client}
use balu_todo.Sync.Client.Storage.{silent, hydrate}
use balu_todo.Sync.Client.Retry.{reset_retry}
use balu_todo.Sync.Client.Mutate.{CommandInput, FreshIds, mutate}
use balu_todo.Sync.Client.Engine.{
  System, grounded, pushing, pulling, Notices, no_notices, stop, close, flush_start, pull_start,
  push_answer, push_failed, pull_answer, pull_failed,
}

-- `start`, up to the sync that it begins.
unfoldable pub start : Client → Client
start c = if silent c then c else record c { started = true }

-- The retry timer fires: what it starts is a sync.
unfoldable pub timer_fired : Client → Client
timer_fired c = record c { retry = record (c.retry) { timer = none } }

-- A new client that has read its storage, with nothing in flight.
unfoldable pub booted : Options → Disk → System
unfolding hydrate
booted opts disk = record { client = hydrate (new_client opts disk); flight = grounded }

pub data Step (opts : Options) : System → System → Type 0 where
  edit :
      (env : Env) (fresh : FreshIds) (input : CommandInput) (s : System)
      → Step opts s (record s { client = (mutate env fresh input s.client).0 })
  starts : (s : System) → Step opts s (record s { client = start s.client })
  stops : (s : System) → Step opts s (record s { client = stop s.client })
  closes : (s : System) → Step opts s (record s { client = close s.client })
  wakes : (s : System) → Step opts s (record s { client = reset_retry s.client })
  fires : (s : System) → Step opts s (record s { client = timer_fired s.client })
  flushes :
      (env : Env) (c : Client)
      → Step opts (record { client = c; flight = grounded }) (flush_start opts env c)
  pulls :
      (env : Env) (c : Client)
      → Step opts (record { client = c; flight = grounded }) (pull_start opts env no_notices c)
  push_answered :
      (env : Env) (batch : List SyncCommand) (owed : Notices) (resp : SyncResponse) (c : Client)
      → Step opts
          (record { client = c; flight = pushing batch owed })
          (push_answer opts env batch owed resp c)
  push_fails :
      (env : Env) (batch : List SyncCommand) (owed : Notices) (e : Failure) (c : Client)
      → Step opts
          (record { client = c; flight = pushing batch owed })
          (push_failed opts env batch owed e c)
  -- Nothing was sent, so the server has no id to give (docs/api/CONTRACT.md, 5.3).
  pull_answered :
      (env : Env) (owed : Notices) (resp : SyncResponse) (c : Client)
      → resp.temp_id_mapping ≡ []
      → Step opts (record { client = c; flight = pulling owed }) (pull_answer opts env owed resp c)
  pull_fails :
      (env : Env) (owed : Notices) (e : Failure) (c : Client)
      → Step opts (record { client = c; flight = pulling owed }) (pull_failed opts env owed e c)

pub data Reach (opts : Options) (disk : Disk) : System → Type 0 where
  boot : Reach opts disk (booted opts disk)
  next : {s t : System} → Reach opts disk s → Step opts s t → Reach opts disk t

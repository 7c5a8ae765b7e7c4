-- ===== src/Sync/Client/Retry/Patience.antt =====
-- The retry timer, in every run of packages/sync-client/src/client.ts.
use balu_todo.Prelude.{
  Bool, if◌then◌else◌, ℕ, ◌≡◌, ◌≤◌, arith, some, none, Option, true, false, max,
}
use balu_todo.Sync.Protocol.{
  SyncStatus, synced, syncing, offline, error, Failure, failure_status, http, transient,
}
use balu_todo.Sync.Client.State.{Client, Options, Env}
use balu_todo.Sync.Client.Retry.{rearm, schedule_retry, set_status, failed, mark_syncing, hold_back}
use balu_todo.Sync.Client.Engine.{fail}

-- The time for which a timer is set, or `late` without one.
abbrev pub due_or : ℕ → Option ℕ → ℕ
due_or late none = late
due_or late (some due) = due

-- A timer is due no earlier than the server asked, only a started client has one, and the delay is
-- within its limit.
pub record IsPatient (opts : Options) (c : Client) : Type 0 where
  pub patient : c.retry.not_before ≤ due_or c.retry.not_before c.retry.timer
  pub idle : c.started ≡ false → c.retry.timer ≡ none
  pub lost : c.access_lost ≡ true → c.started ≡ false
  pub delay : c.retry.delay ≤ max opts.retry_base_ms opts.retry_max_ms

-- A client with the same retry state is as patient.
pub record Alike (c c' : Client) : Type 0 where
  pub retry : c'.retry ≡ c.retry
  pub started : c'.started ≡ c.started
  pub lost : c'.access_lost ≡ c.access_lost

module _ (opts : Options) (env : Env) where
  pub Alike-IsPatient : (c c' : Client) → Alike c c' → IsPatient opts c → IsPatient opts c'
  Alike-IsPatient c c' a h = ground arith

  schedule_retry-IsPatient :
      (c : Client)
      → (c.started ≡ false → c.retry.timer ≡ none)
      → (c.access_lost ≡ true → c.started ≡ false)
      → c.retry.delay ≤ max opts.retry_base_ms opts.retry_max_ms
      → IsPatient opts (schedule_retry opts env c)
  unfolding schedule_retry rearm
  schedule_retry-IsPatient c h1 h2 h3 = ground arith

  pub set_status-IsPatient :
      (st : SyncStatus) (c : Client) → IsPatient opts c → IsPatient opts (set_status opts env st c)
  unfolding set_status
  set_status-IsPatient synced c h = ground arith
  set_status-IsPatient syncing c h = ground arith
  set_status-IsPatient offline c h =
      schedule_retry-IsPatient (record c { failing = true; status = offline }) h.idle h.lost h.delay
  set_status-IsPatient error c h =
      schedule_retry-IsPatient (record c { failing = true; status = error }) h.idle h.lost h.delay

  -- A failure asks for a new wait, and the timer follows it.
  set_status-failing :
      (busy : Bool) (c : Client)
      → (c.started ≡ false → c.retry.timer ≡ none)
      → (c.access_lost ≡ true → c.started ≡ false)
      → c.retry.delay ≤ max opts.retry_base_ms opts.retry_max_ms
      → IsPatient opts (set_status opts env (if busy then offline else error) c)
  unfolding set_status
  set_status-failing true c =
      schedule_retry-IsPatient (record c { failing = true; status = offline })
  set_status-failing false c =
      schedule_retry-IsPatient (record c { failing = true; status = error })

  pub fail-IsPatient :
      (e : Failure) (c : Client) → IsPatient opts c → IsPatient opts (fail opts env e c)
  unfolding fail failed failure_status
  fail-IsPatient (http status code wait) c h =
      set_status-failing (transient status) (failed env (http status code wait) c) h.idle h.lost
        h.delay
  fail-IsPatient e c h = set_status-failing true (failed env e c) h.idle h.lost h.delay

  pub mark_syncing-IsPatient :
      (c : Client) → IsPatient opts c → IsPatient opts (mark_syncing opts env c)
  unfolding mark_syncing
  mark_syncing-IsPatient c h = ground (arith, set_status-IsPatient syncing c h)

  pub hold_back-IsPatient : (c : Client) → IsPatient opts c → IsPatient opts (hold_back env c)
  unfolding hold_back
  hold_back-IsPatient c h = ground arith

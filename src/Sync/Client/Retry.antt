-- ===== src/Sync/Client/Retry.antt =====
-- Retries and the sync status: `scheduleRetry`, `throttled`, `setStatus` and their helpers in
-- packages/sync-client/src/client.ts.
pub mod Patience
pub mod Runs
pub mod Heeded
use balu_todo.Prelude.{
  ℕ, ◌+◌, ◌-◌, ◌*◌, ◌/◌, Bool, true, false, ◌&&◌, ◌||◌, not, none, some, ltb, leb, eqb, min, max,
  is_some, if◌then◌else◌,
}
use balu_todo.Sync.Protocol.{SyncStatus, synced, syncing, offline, error, Failure, http}
use balu_todo.Sync.Client.State.{Client, Options, Retry, Env}

-- armRetry: `wait` milliseconds from now.
abbrev pub armed : ℕ → ℕ → Retry → Retry
armed now wait r = record r { timer = some (now + wait) }

-- `retryDelay === 0 ? retryBaseMs : Math.min(retryDelay * 2, retryMaxMs)`
abbrev pub next_delay : Options → ℕ → ℕ
next_delay opts delay =
    if eqb delay 0 then opts.retry_base_ms else min (delay * 2) opts.retry_max_ms

-- The body of `scheduleRetry` behind its guard.
unfoldable pub rearm : Options → Env → Retry → Retry
rearm opts env r =
    let wait = r.not_before - env.now in
    elim r.timer [
      | some due ↦ if leb (env.now + wait) due then r else armed env.now wait r
      | none ↦
          let delay = next_delay opts r.delay in
          armed env.now (max (delay * env.jitter / 1000) wait) (record r { delay = delay })
    ]

unfoldable pub schedule_retry : Options → Env → Client → Client
unfolding rearm
schedule_retry opts env c =
    if not c.started || c.access_lost then c else record c { retry = rearm opts env c.retry }

-- `throttled`: its result, and the timer that it makes sure of.
abbrev pub held_back : Env → Client → Bool
held_back env c = ltb env.now c.retry.not_before

unfoldable pub hold_back : Env → Client → Client
hold_back env c =
    if held_back env c && c.started && not c.access_lost && not (is_some c.retry.timer)
    then record c { retry = armed env.now (c.retry.not_before - env.now) c.retry }
    else c

unfoldable pub reset_retry : Client → Client
reset_retry c = record c {
  retry = record { timer = none; delay = 0; not_before = c.retry.not_before };
}

abbrev pub is_failing : SyncStatus → Bool
is_failing offline = true
is_failing error = true
is_failing s = false

unfoldable pub set_status : Options → Env → SyncStatus → Client → Client
unfolding schedule_retry
set_status opts env synced c = record c {
  failing = false;
  has_synced = true;
  retry = record { timer = none; delay = 0; not_before = 0 };
  status = synced;
}
set_status opts env syncing c = record c { failing = false; status = syncing }
set_status opts env offline c =
    schedule_retry opts env (record c { failing = true; status = offline })
set_status opts env error c = schedule_retry opts env (record c { failing = true; status = error })

unfoldable pub mark_syncing : Options → Env → Client → Client
unfolding set_status
mark_syncing opts env c = if c.failing then c else set_status opts env syncing c

-- `failed`: what the server's `Retry-After` asks for; a failure without one ends an earlier wait.
abbrev pub wait_until : Env → Failure → ℕ
wait_until env (http status code none) = 0
wait_until env (http status code (some wait)) = env.now + wait
wait_until env e = 0

unfoldable pub failed : Env → Failure → Client → Client
failed env e c = record c { retry = record (c.retry) { not_before = wait_until env e } }

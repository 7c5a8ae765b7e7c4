-- ===== src/Sync/Client/Retry/Heeded.antt =====
-- What a failed request of packages/sync-client/src/client.ts asks for, and the client's wait.
use balu_todo.Prelude.{ℕ, ◌+◌, ◌≡◌, ltb, Option, none, some, true}
use balu_todo.Sync.Protocol.{Failure, http, LossReason, lost_access_reason}
use balu_todo.Sync.Client.State.{Client, Options, Env}
use balu_todo.Sync.Client.Engine.{System, no_notices, grounded, pull_start, flush_start}
use balu_todo.Sync.Client.Steps.{Step, push_fails, pull_fails}
use balu_todo.Sync.Client.Retry.Patience.{IsPatient}

-- The instant before which a failed request asks not to try again: that of its `Retry-After`, and 0
-- without one.
abbrev instant_in : Env → Failure → ℕ
instant_in env (http status code (some wait)) = env.now + wait
instant_in env e = 0

-- The same where the failure does not end the client's access.
abbrev kept_access : Env → Failure → Option LossReason → Option ℕ
kept_access env e none = some (instant_in env e)
kept_access env e (some reason) = none

abbrev asked : Env → Failure → Option ℕ
asked env e = kept_access env e (lost_access_reason e)

-- What a step asks for: only a failed push or pull asks.
abbrev pub asks : {opts : Options} {s t : System} → Step opts s t → Option ℕ
asks (push_fails env batch owed e c) = asked env e
asks (pull_fails env owed e c) = asked env e
asks step = none

-- The client of `s`, behind a step that asked for `due`.
pub record IsHeeded (opts : Options) (due : Option ℕ) (s : System) : Type 0 where
  pub patient : IsPatient opts s.client
  pub remembered : (ms : ℕ) → due ≡ some ms → s.client.retry.not_before ≡ ms
  pub quiet :
      (env : Env)
      → ltb env.now s.client.retry.not_before ≡ true
      → ((flush_start opts env s.client).flight ≡ grounded)
        × ((pull_start opts env no_notices s.client).flight ≡ grounded)

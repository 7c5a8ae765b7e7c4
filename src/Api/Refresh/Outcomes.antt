-- ===== src/Api/Refresh/Outcomes.antt =====
-- How a refresh of packages/api-client/src/index.ts ends.
use balu_todo.Prelude.{none, ℕ, String, ◌≡◌, ◌⊎◌, Bool, true, false, Option, none, List, eqb, leb}
use balu_todo.Api.Session.{Session}
use balu_todo.Api.Refresh.{
  RefreshError, api, Reply, thrown, request_tokens, Outcome, cleared, refresh,
}

-- The server refused the refresh token.
abbrev pub is_refusal : RefreshError → Bool
is_refusal (api code status) = eqb status 401
is_refusal e = false

-- The storage holds what it held.
abbrev pub IsStoredAs : Session → Session → Type 0
IsStoredAs s s' = (s'.stored_access ≡ s.stored_access) × (s'.stored_refresh ≡ s.stored_refresh)

-- The end of a refresh that leaves the session `s`: an error other than a refusal leaves the stored
-- tokens; and the app is told that the session expired just after a refusal in a session that goes on,
-- and with all tokens gone.
pub record IsEnded (started_gen : ℕ) (s : Session) (o : Outcome) : Type 0 where
  pub kept :
      (e : RefreshError) → o.result ≡ thrown e → is_refusal e ≡ false → IsStoredAs s o.session
  pub told :
      o.expired ≡ true
      → (s.session_gen ≡ started_gen)
        × (o.session ≡ cleared s)
        × ((e : RefreshError) × (o.result ≡ thrown e) × (is_refusal e ≡ true))

-- The session at the call, when the stored tokens are read, or when the last answer is there, is the one
-- that the refresh leaves.
abbrev pub IsEndedFrom : Session → Session → Session → Outcome → Type 0
IsEndedFrom called s later o =
    IsEnded called.session_gen called o
    ⊎ (IsEnded called.session_gen s o ⊎ IsEnded called.session_gen later o)

-- What a refresh promises, where `replies` are what comes of its requests.
pub record IsRefreshed (subject : String → Option String) (budget_end : ℕ) (replies : List Reply)
    (called s later : Session) : Type 0 where
  pub ended_well : IsEndedFrom called s later (refresh subject budget_end replies called s later)
  pub requests : leb (request_tokens called.session_gen budget_end 1 replies).1 2 ≡ true

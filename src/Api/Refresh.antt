-- ===== src/Api/Refresh.antt =====
-- `refresh` of packages/api-client/src/index.ts under its lock: `s` is the session when the stored
-- tokens are read, and `later` the one when the last answer is there. The lock itself, and the promise
-- that calls share, are not modelled; what `tokenSubject` decodes is the parameter `subject`.
pub mod Outcomes
use balu_todo.Prelude.{
  ℕ, ◌+◌, ◌-◌, String, Bool, true, false, not, ◌&&◌, ◌||◌, ◌==◌, Option, none, some, List, [], ◌∷◌,
  eqb, leb, ltb, same, is_some, truthy, if◌then◌else◌,
}
use balu_todo.Api.Session.{AuthTokens, Session}

pub data Cause : Type 0 where
  gone replaced : Cause

-- An error: an `ApiError` with its code and status, a failed connection (a `TypeError`), or a session
-- that ended elsewhere.
pub data RefreshError : Type 0 where
  api : String → ℕ → RefreshError
  network : RefreshError
  ended_elsewhere : Cause → RefreshError

abbrev pub signed_out_error : RefreshError
signed_out_error = api "signed_out" 401

-- What the stored tokens say.
pub data Check : Type 0 where
  proceed : Check
  adopt : AuthTokens → Check
  ended : Cause → Check

-- `mine && theirs && mine !== theirs`
abbrev pub other_user : Option String → Option String → Bool
other_user (some mine) (some theirs) = not (mine == theirs)
other_user mine theirs = false

abbrev pub adopt_stored : Bool → Option String → Option String → Check
adopt_stored other (some refresh) (some access) =
    if other
    then ended replaced
    else adopt (record { access_token = access; refresh_token = refresh })
adopt_stored other refresh access = ended gone

abbrev pub subject_of : (String → Option String) → Option String → Option String
subject_of subject none = none
subject_of subject (some token) = truthy (subject token)

unfoldable pub check_stored : (String → Option String) → Session → Check
check_stored subject s =
    if same s.stored_refresh s.refresh_token
    then proceed
    else adopt_stored
        (other_user (subject_of subject s.access_token) (subject_of subject s.stored_access))
        (truthy s.stored_refresh) (truthy s.stored_access)

-- What comes of a request, with the generation and the time at which it comes.
pub data Answer : Type 0 where
  answered : AuthTokens → Answer
  failed : RefreshError → Answer

pub record Reply : Type 0 where
  pub answer : Answer
  pub session_gen : ℕ
  pub now : ℕ

-- The end of a refresh, or the wait for another answer.
pub data Refreshed : Type 0 where
  waiting : Refreshed
  got : AuthTokens → Refreshed
  thrown : RefreshError → Refreshed

abbrev pub is_lost : RefreshError → Bool
is_lost (api code status) = code == "timeout"
is_lost network = true
is_lost (ended_elsewhere cause) = false

module _ (started_gen budget_end : ℕ) where
  -- The attempt is not repeated.
  abbrev pub gives_up : ℕ → RefreshError → Reply → Bool
  gives_up attempt e reply =
      not (is_lost e)
      || leb 2 attempt
      || not (eqb reply.session_gen started_gen)
      || ltb (budget_end - reply.now) 1000

  -- One round of the loop, with what the next ones come to.
  abbrev pub attempted : ℕ → Reply → Answer → Refreshed × ℕ → Refreshed × ℕ
  attempted attempt reply (answered tokens) again = (got tokens, attempt)
  attempted attempt reply (failed e) again =
      if gives_up attempt e reply then (thrown e, attempt) else again

  -- The loop, from an attempt on: its end, and how many requests it took.
  unfoldable pub request_tokens : ℕ → List Reply → Refreshed × ℕ
  request_tokens attempt [] = (waiting, attempt)
  request_tokens attempt (reply ∷ replies) =
      let again = request_tokens (attempt + 1) replies in attempted attempt reply reply.answer again

-- The session after a refresh, how it ended, and what the app is told.
pub record Outcome : Type 0 where
  pub session : Session
  pub result : Refreshed
  pub expired : Bool
  pub ended_by : Option Cause

abbrev pub ends : Session → Refreshed → Outcome
ends s result = record { session = s; result = result; expired = false; ended_by = none }

abbrev pub cleared : Session → Session
cleared s = record {
  access_token = none;
  refresh_token = none;
  session_gen = s.session_gen + 1;
  stored_access = none;
  stored_refresh = none;
}

-- The `catch`, for a session that did not end meanwhile.
abbrev pub react : RefreshError → Session → Outcome
react (ended_elsewhere cause) s = record {
  session = record s { access_token = none; refresh_token = none };
  result = thrown (ended_elsewhere cause);
  expired = false;
  ended_by = some cause;
}
react network s = ends s (thrown network)
react (api code status) s =
    if eqb status 401
    then record {
      session = cleared s;
      result = thrown (api code status);
      expired = true;
      ended_by = none;
    }
    else ends s (thrown (api code status))

unfoldable pub refresh_failed : ℕ → RefreshError → Session → Outcome
refresh_failed started_gen e s =
    if eqb s.session_gen started_gen then react e s else ends s (thrown e)

abbrev pub with_tokens : AuthTokens → Session → Session
with_tokens t s = record s {
  access_token = some t.access_token;
  refresh_token = some t.refresh_token;
  stored_access = some t.access_token;
  stored_refresh = some t.refresh_token;
}

-- The end of the loop, where nothing comes between the writes of `setTokens`.
abbrev pub settle_request : ℕ → Session → Refreshed → Outcome
settle_request started_gen later waiting = ends later waiting
settle_request started_gen later (got tokens) =
    if eqb later.session_gen started_gen
    then ends (with_tokens tokens later) (got tokens)
    else refresh_failed started_gen signed_out_error later
settle_request started_gen later (thrown e) = refresh_failed started_gen e later

abbrev pub settle_check : ℕ → ℕ → List Reply → Session → Session → Check → Outcome
settle_check started_gen budget_end replies s later proceed =
    settle_request started_gen later (request_tokens started_gen budget_end 1 replies).0
settle_check started_gen budget_end replies s later (adopt tokens) =
    ends
      (record s {
        access_token = some tokens.access_token;
        refresh_token = some tokens.refresh_token;
      })
      (got tokens)
settle_check started_gen budget_end replies s later (ended cause) =
    refresh_failed started_gen (ended_elsewhere cause) s

abbrev pub refresh_with :
    Option String
    → (String → Option String)
    → ℕ
    → List Reply
    → Session
    → Session
    → Session
    → Outcome
refresh_with none subject budget_end replies called s later = ends called (thrown signed_out_error)
refresh_with (some token) subject budget_end replies called s later =
    settle_check called.session_gen budget_end replies s later (check_stored subject s)

-- `refresh`, where `called` is the session at the call.
unfoldable pub refresh :
    (String → Option String) → ℕ → List Reply → Session → Session → Session → Outcome
unfolding check_stored request_tokens refresh_failed
refresh subject budget_end replies called s later =
    refresh_with (truthy called.refresh_token) subject budget_end replies called s later

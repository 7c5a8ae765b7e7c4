-- ===== src/Api/Tests.antt =====
-- Instances of the theorems about packages/api-client/src.
use balu_todo.Prelude.{String, Option, none, some, List, [], ◌∷◌}
use balu_todo.Api.Refresh.{Reply, failed, network, answered}
use balu_todo.Api.Session.{AuthTokens, Session, Turn, store, leave, run, race}
use balu_todo.Api.Session.Signout.{IsSettled, run-IsSettled}

abbrev fresh_tokens : AuthTokens
fresh_tokens = record { access_token = "a2"; refresh_token = "r2" }

-- A session with older tokens.
abbrev older : Session
older = record {
  access_token = some "a1";
  refresh_token = some "r1";
  session_gen = 4;
  stored_access = some "a1";
  stored_refresh = some "r1";
}

-- The logout removes the access token before the refresh writes its own.
abbrev turns : List Turn
turns = leave ∷ leave ∷ store ∷ leave ∷ store ∷ store ∷ store ∷ store ∷ store ∷ store ∷ store ∷ []

run-IsSettled_example : IsSettled fresh_tokens (run fresh_tokens 4 turns (race fresh_tokens older))
run-IsSettled_example = run-IsSettled fresh_tokens older turns

-- The first answer is lost, the second one brings the successor.
abbrev lost_once : List Reply
lost_once =
    record { answer = failed network; session_gen = 4; now = 30_000 }
    ∷ record { answer = answered fresh_tokens; session_gen = 4; now = 31_000 }
    ∷ []

abbrev no_subject : String → Option String
no_subject token = none

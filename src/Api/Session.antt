-- ===== src/Api/Session.antt =====
-- `setTokens`, `clearTokens` and `logout` of packages/api-client/src/index.ts, cut at their accesses to
-- the storage: between two of them any other call may run.
pub mod Signout
use balu_todo.Prelude.{
  ℕ, ◌+◌, String, Bool, true, false, Option, none, some, List, [], ◌∷◌, eqb, same, if◌then◌else◌,
}

pub record AuthTokens : Type 0 where
  pub access_token : String
  pub refresh_token : String

-- The variables of `createApiClient`, and the two keys of its storage.
pub record Session : Type 0 where
  pub access_token : Option String
  pub refresh_token : Option String
  pub session_gen : ℕ
  pub stored_access : Option String
  pub stored_refresh : Option String

-- Where a call of `setTokens` is: before a write of a key, before the test whether the session ended,
-- in the removals of `ended`, or at its result.
pub data Storing : Type 0 where
  write_access test_first write_refresh test_last : Storing
  read_access remove_access read_refresh remove_refresh : Storing
  stored : Bool → Storing

-- Where a call of `logout` is, up to the end of `clearTokens`.
pub data Leaving : Type 0 where
  signed_in clear_access clear_refresh signed_out : Leaving

-- The synchronous part of `setTokens`: the call remembers the generation.
unfoldable pub begin_storing : AuthTokens → Session → Session
begin_storing t s = record s {
  access_token = some t.access_token;
  refresh_token = some t.refresh_token;
}

module _ (t : AuthTokens) (gen : ℕ) where
  abbrev pub after_test : Session → Storing → Storing
  after_test s next = if eqb s.session_gen gen then next else read_access

  -- The next access of a call of `setTokens` to the storage.
  unfoldable pub store_turn : Storing → Session → Storing × Session
  store_turn write_access s = (test_first, record s { stored_access = some t.access_token })
  store_turn test_first s = (after_test s write_refresh, s)
  store_turn write_refresh s = (test_last, record s { stored_refresh = some t.refresh_token })
  store_turn test_last s = (after_test s (stored true), s)
  store_turn read_access s =
      (if same s.stored_access (some t.access_token) then remove_access else read_refresh, s)
  store_turn remove_access s = (read_refresh, record s { stored_access = none })
  store_turn read_refresh s =
      (if same s.stored_refresh (some t.refresh_token) then remove_refresh else stored false, s)
  store_turn remove_refresh s = (stored false, record s { stored_refresh = none })
  store_turn (stored b) s = (stored b, s)

-- `logout` up to its first access, the removals of `clearTokens`, and nothing more. Both bump the
-- generation.
unfoldable pub leave_turn : Leaving → Session → Leaving × Session
leave_turn signed_in s = (
  clear_access,
  record s { access_token = none; refresh_token = none; session_gen = s.session_gen + 1 + 1 },
)
leave_turn clear_access s = (clear_refresh, record s { stored_access = none })
leave_turn clear_refresh s = (signed_out, record s { stored_refresh = none })
leave_turn signed_out s = (signed_out, s)

-- Both calls, and whose turn it is.
pub record Race : Type 0 where
  pub storing : Storing
  pub leaving : Leaving
  pub session : Session

pub data Turn : Type 0 where
  store leave : Turn

module _ (t : AuthTokens) (gen : ℕ) where
  abbrev pub take_turn : Turn → Race → Race
  take_turn store r =
      let (p, s) = store_turn t gen r.storing r.session in record r { storing = p; session = s }
  take_turn leave r =
      let (p, s) = leave_turn r.leaving r.session in record r { leaving = p; session = s }

  unfoldable pub run : List Turn → Race → Race
  unfolding store_turn leave_turn
  run [] r = r
  run (turn ∷ turns) r = run turns (take_turn turn r)

-- `setTokens` at its first write, before any `logout`.
abbrev pub race : AuthTokens → Session → Race
race t s = record { storing = write_access; leaving = signed_in; session = begin_storing t s }

-- ===== src/Api/Session/Signout.antt =====
-- A `logout` of packages/api-client/src/index.ts while tokens are being stored.
use mathlib.Core.Path.{subst}
use balu_todo.Prelude.{
  ap, sym, ◌∙◌, eq_refl, ℕ, ◌+◌, ◌≡◌, ◌⊎◌, inl, inr, refl, Bool, true, false, none, some, List, [],
  ◌∷◌, arith, eqb,
}
use balu_todo.Api.Session.{
  AuthTokens, Session, Storing, write_access, test_first, write_refresh, test_last, read_access,
  remove_access, read_refresh, remove_refresh, stored, Leaving, signed_in, clear_access,
  clear_refresh, signed_out, Race, Turn, store, leave, store_turn, leave_turn, take_turn, run, race,
  begin_storing, after_test,
}

-- The call still looks at the stored access token, or at the stored refresh token.
abbrev has_access : Storing → Bool
has_access test_first = true
has_access write_refresh = true
has_access test_last = true
has_access read_access = true
has_access remove_access = true
has_access p = false

abbrev has_refresh : Storing → Bool
has_refresh test_last = true
has_refresh read_access = true
has_refresh remove_access = true
has_refresh read_refresh = true
has_refresh remove_refresh = true
has_refresh p = false

-- The session is over in memory.
abbrev IsOver : ℕ → Session → Type 0
IsOver gen s = (s.session_gen ≡ gen + 1 + 1) × (s.access_token ≡ none) × (s.refresh_token ≡ none)

module _ (t : AuthTokens) where
  -- A key that the logout removed holds nothing, or the token of the call that will remove it.
  abbrev HasAccess : Storing → Session → Type 0
  HasAccess p s =
      (s.stored_access ≡ none) ⊎ ((s.stored_access ≡ some t.access_token) × (has_access p ≡ true))

  abbrev HasRefresh : Storing → Session → Type 0
  HasRefresh p s =
      (s.stored_refresh ≡ none)
      ⊎ ((s.stored_refresh ≡ some t.refresh_token) × (has_refresh p ≡ true))

  abbrev IsIn : Session → Type 0
  IsIn s = (s.access_token ≡ some t.access_token) × (s.refresh_token ≡ some t.refresh_token)

  -- What an undisturbed call has written.
  abbrev IsWritten : Storing → Session → Type 0
  IsWritten write_access s = IsIn s
  IsWritten test_first s = IsIn s × (s.stored_access ≡ some t.access_token)
  IsWritten write_refresh s = IsIn s × (s.stored_access ≡ some t.access_token)
  IsWritten test_last s =
      IsIn s × (s.stored_access ≡ some t.access_token) × (s.stored_refresh ≡ some t.refresh_token)
  IsWritten (stored true) s =
      IsIn s × (s.stored_access ≡ some t.access_token) × (s.stored_refresh ≡ some t.refresh_token)
  IsWritten p s = true ≡ false

  module _ (gen : ℕ) where
    -- What holds in every state of the race.
    abbrev IsRace : Storing → Leaving → Session → Type 0
    IsRace p signed_in s = (s.session_gen ≡ gen) × IsWritten p s
    IsRace p clear_access s = IsOver gen s
    IsRace p clear_refresh s = IsOver gen s × HasAccess p s
    IsRace p signed_out s = IsOver gen s × HasAccess p s × HasRefresh p s

    -- A call of `setTokens` changes neither the generation nor, after its first part, the memory.
    IsOver-store_turn :
        (p : Storing) (s : Session) → IsOver gen s → IsOver gen (store_turn t gen p s).1
    unfolding store_turn
    IsOver-store_turn write_access s h = h
    IsOver-store_turn _ s h = h

    is_newer : (s : Session) → IsOver gen s → eqb s.session_gen gen ≡ false
    is_newer s (g, a, r) = ground (arith, g)

    after_test_over :
        (s : Session) (next : Storing) → IsOver gen s → after_test t gen s next ≡ read_access
    after_test_over s next o = rw (is_newer s o)

    HasAccess-store_turn :
        (p : Storing) (s : Session)
        → IsOver gen s
        → HasAccess p s
        → HasAccess (store_turn t gen p s).0 (store_turn t gen p s).1
    unfolding store_turn
    HasAccess-store_turn write_access s o h = inr (refl, refl)
    HasAccess-store_turn test_first s o (inl e) = inl e
    HasAccess-store_turn test_first s o (inr e) =
        inr (e.0, ap has_access (after_test_over s write_refresh o))
    HasAccess-store_turn write_refresh s o h = h
    HasAccess-store_turn test_last s o (inl e) = inl e
    HasAccess-store_turn test_last s o (inr e) =
        inr (e.0, ap has_access (after_test_over s (stored true) o))
    HasAccess-store_turn read_access s o (inl e) = inl e
    HasAccess-store_turn read_access s o (inr (e, q)) = inr (e, rw (e, eq_refl t.access_token) refl)
    HasAccess-store_turn remove_access s o h = inl refl
    HasAccess-store_turn read_refresh s o (inl e) = inl e
    HasAccess-store_turn read_refresh s o (inr (e, q)) = cc
    HasAccess-store_turn remove_refresh s o (inl e) = inl e
    HasAccess-store_turn remove_refresh s o (inr (e, q)) = cc
    HasAccess-store_turn (stored b) s o h = h

    HasRefresh-store_turn :
        (p : Storing) (s : Session)
        → IsOver gen s
        → HasRefresh p s
        → HasRefresh (store_turn t gen p s).0 (store_turn t gen p s).1
    unfolding store_turn
    HasRefresh-store_turn write_access s o (inl e) = inl e
    HasRefresh-store_turn write_access s o (inr (e, q)) = cc
    HasRefresh-store_turn test_first s o (inl e) = inl e
    HasRefresh-store_turn test_first s o (inr (e, q)) = cc
    HasRefresh-store_turn write_refresh s o h = inr (refl, refl)
    HasRefresh-store_turn test_last s o (inl e) = inl e
    HasRefresh-store_turn test_last s o (inr e) =
        inr (e.0, ap has_refresh (after_test_over s (stored true) o))
    HasRefresh-store_turn read_access s o (inl e) = inl e
    HasRefresh-store_turn read_access s o (inr e) = inr (e.0, ground arith)
    HasRefresh-store_turn remove_access s o h = h
    HasRefresh-store_turn read_refresh s o (inl e) = inl e
    HasRefresh-store_turn read_refresh s o (inr (e, q)) =
        inr (e, rw (e, eq_refl t.refresh_token) refl)
    HasRefresh-store_turn remove_refresh s o h = inl refl
    HasRefresh-store_turn (stored b) s o h = h

    still : (s : Session) (next : Storing) → s.session_gen ≡ gen → after_test t gen s next ≡ next
    still s next g = ground (arith, g)

    IsWritten-store_turn :
        (p : Storing) (s : Session)
        → s.session_gen ≡ gen
        → IsWritten p s
        → IsWritten (store_turn t gen p s).0 (store_turn t gen p s).1
    unfolding store_turn
    IsWritten-store_turn write_access s g h = (h, refl)
    IsWritten-store_turn test_first s g h =
        subst (λ p. IsWritten p s) (sym (still s write_refresh g)) h
    IsWritten-store_turn write_refresh s g h = (h.0, h.1, refl)
    IsWritten-store_turn test_last s g h =
        subst (λ p. IsWritten p s) (sym (still s (stored true) g)) h
    IsWritten-store_turn (stored true) s g h = h
    IsWritten-store_turn _ s g h = cc

    gen-store_turn :
        (p : Storing) (s : Session) → (store_turn t gen p s).1.session_gen ≡ s.session_gen
    unfolding store_turn
    gen-store_turn write_access s = refl
    gen-store_turn _ s = refl

    IsRace-store :
        (p : Storing) (l : Leaving) (s : Session)
        → IsRace p l s
        → IsRace (store_turn t gen p s).0 l (store_turn t gen p s).1
    IsRace-store p signed_in s (g, w) = (gen-store_turn p s ∙ g, IsWritten-store_turn p s g w)
    IsRace-store p clear_access s o = IsOver-store_turn p s o
    IsRace-store p clear_refresh s (o, a) = (IsOver-store_turn p s o, HasAccess-store_turn p s o a)
    IsRace-store p signed_out s (o, a, r) =
        (IsOver-store_turn p s o, HasAccess-store_turn p s o a, HasRefresh-store_turn p s o r)

    IsRace-leave :
        (p : Storing) (l : Leaving) (s : Session)
        → IsRace p l s
        → IsRace p (leave_turn l s).0 (leave_turn l s).1
    unfolding leave_turn
    IsRace-leave p signed_in s (g, w) = (ap (λ n. n + 1 + 1) g, refl, refl)
    IsRace-leave p clear_access s o = (o, inl refl)
    IsRace-leave p clear_refresh s (o, a) = (o, a, inl refl)
    IsRace-leave p signed_out s h = h

    IsRace-run :
        (turns : List Turn) (r : Race)
        → IsRace r.storing r.leaving r.session
        → IsRace (run t gen turns r).storing (run t gen turns r).leaving (run t gen turns r).session
    unfolding run
    IsRace-run [] r h = h
    IsRace-run (store ∷ turns) r h =
        IsRace-run turns (take_turn t gen store r) (IsRace-store r.storing r.leaving r.session h)
    IsRace-run (leave ∷ turns) r h =
        IsRace-run turns (take_turn t gen leave r) (IsRace-leave r.storing r.leaving r.session h)

-- The ends of the race: signed out with nothing left, or stored without a logout.
pub record IsSettled (t : AuthTokens) (r : Race) : Type 0 where
  pub nothing_left :
      (b : Bool)
      → r.storing ≡ stored b
      → r.leaving ≡ signed_out
      → (r.session.access_token ≡ none)
        × (r.session.refresh_token ≡ none)
        × (r.session.stored_access ≡ none)
        × (r.session.stored_refresh ≡ none)
  pub all_stored :
      (b : Bool)
      → r.storing ≡ stored b
      → r.leaving ≡ signed_in
      → (b ≡ true)
        × (r.session.access_token ≡ some t.access_token)
        × (r.session.refresh_token ≡ some t.refresh_token)
        × (r.session.stored_access ≡ some t.access_token)
        × (r.session.stored_refresh ≡ some t.refresh_token)

no_access_left :
    (t : AuthTokens) (b : Bool) (s : Session) → HasAccess t (stored b) s → s.stored_access ≡ none
no_access_left t b s (inl e) = e
no_access_left t b s (inr (e, q)) = cc

no_refresh_left :
    (t : AuthTokens) (b : Bool) (s : Session) → HasRefresh t (stored b) s → s.stored_refresh ≡ none
no_refresh_left t b s (inl e) = e
no_refresh_left t b s (inr (e, q)) = cc

signed_out_clean :
    (t : AuthTokens) (gen : ℕ) (b : Bool) (s : Session)
    → IsRace t gen (stored b) signed_out s
    → (s.access_token ≡ none)
      × (s.refresh_token ≡ none)
      × (s.stored_access ≡ none)
      × (s.stored_refresh ≡ none)
signed_out_clean t gen b s (o, a, r) = (o.1, o.2, no_access_left t b s a, no_refresh_left t b s r)

signed_in_whole :
    (t : AuthTokens) (gen : ℕ) (b : Bool) (s : Session)
    → IsRace t gen (stored b) signed_in s
    → (b ≡ true)
      × (s.access_token ≡ some t.access_token)
      × (s.refresh_token ≡ some t.refresh_token)
      × (s.stored_access ≡ some t.access_token)
      × (s.stored_refresh ≡ some t.refresh_token)
signed_in_whole t gen true s (g, h) = (refl, h.0.0, h.0.1, h.1, h.2)
signed_in_whole t gen false s (g, h) = cc

-- However the accesses of a `setTokens` and of a later `logout` to the storage interleave: when both
-- are done, neither the memory nor the storage holds a token; and when the call is done without a
-- logout, it succeeded and both hold its tokens.
pub run-IsSettled :
    (t : AuthTokens) (s : Session) (turns : List Turn)
    → IsSettled t (run t s.session_gen turns (race t s))
unfolding begin_storing
run-IsSettled t s turns =
    let r = run t s.session_gen turns (race t s) in
    let h = IsRace-run t s.session_gen turns (race t s) (refl, (refl, refl)) in
    record {
      nothing_left = λ b e l. signed_out_clean t s.session_gen b r.session (
          subst (λ p. IsRace t s.session_gen p signed_out r.session) e
            (subst (λ q. IsRace t s.session_gen r.storing q r.session) l h));
      all_stored = λ b e l. signed_in_whole t s.session_gen b r.session (
          subst (λ p. IsRace t s.session_gen p signed_in r.session) e
            (subst (λ q. IsRace t s.session_gen r.storing q r.session) l h));
    }

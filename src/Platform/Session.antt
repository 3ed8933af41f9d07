-- ===== src/Platform/Session.antt =====
-- gocode/platform/windoge_utils/token_dgd_windows.go: which session's user the program acts for
-- when it runs as SYSTEM. The calls of Windows are parameters: the enumerated sessions, the user
-- name of a session ("" where the query fails, which leaves a nil pointer), and the outcomes of the
-- token calls.
use cramc.Prelude.{
  ℕ, ◌≤◌, ◌<◌, ◌≡◌, refl, ◌⊎◌, inl, inr, Bool, true, false, not, ◌&&◌, ◌||◌, Option, none, some,
  List, [], ◌∷◌, ◌++◌, arith, ltb, ◌==◌, if◌then◌else◌, All, Bytes, text_eq,
}
use cramc.Platform.Privilege.{PrivilegeEnv, enable_necessary_privilege}
use cramc.Prelude.Outcome.{GoError, Outcome, ok, err, ◌>>=◌, unknown_internal_error, invalid_input}

-- WTS_CONNECTSTATE_CLASS
pub data SessionState : Type 0 where
  wts_active wts_connected wts_connect_query wts_shadow wts_disconnected : SessionState
  wts_idle wts_listen wts_reset wts_down wts_init : SessionState

pub record Session : Type 0 where
  pub session_id : ℕ
  pub state : SessionState

-- The service's session, and the listening ones.
abbrev pub is_special : ℕ → Bool
is_special id = id == 0 || ltb 65530 id

-- The tests of one round, past the special sessions.
abbrev pub is_chosen : (ℕ → Bytes) → ℕ → SessionState → Bool
is_chosen user_name id wts_active = true
is_chosen user_name id wts_disconnected = not (text_eq (user_name id) [])
is_chosen user_name id _ = false

-- The loop over the sessions: `selectedSessionID`, if `sessionIDfound`.
unfoldable pub select_session : (ℕ → Bytes) → List Session → Option ℕ
select_session user_name [] = none
select_session user_name (ses ∷ sessions) =
    let rest = select_session user_name sessions in
    if is_special ses.session_id
    then rest
    else if is_chosen user_name ses.session_id ses.state
    then some ses.session_id
    else rest

abbrev found : Option ℕ → Outcome ℕ
found (some id) = ok id
found none = err unknown_internal_error

-- `getActiveWTSSessionID`
unfoldable pub get_active_wts_session_id : Outcome (List Session) → (ℕ → Bytes) → Outcome ℕ
unfolding select_session
get_active_wts_session_id enumerated user_name = do
  sessions ← enumerated
  found (select_session user_name sessions)

-- What the token calls give: `WTSQueryUserToken` of a session, the calls of
-- `enableNecessaryPrivilege`, and `DuplicateTokenEx` of a token to a type.
pub record TokenCalls : Type 0 where
  pub query_user_token : ℕ → Outcome ℕ
  pub privileges : PrivilegeEnv
  pub duplicate_token : ℕ → ℕ → Outcome ℕ

abbrev pub token_primary : ℕ
token_primary = 1

abbrev pub token_impersonation : ℕ
token_impersonation = 2

abbrev tried : Option GoError → Outcome (Unit {0})
tried none = ok tt
tried (some e) = err e

-- `GetLoggedInUserToken`; which privileges the process had does not matter to it.
unfoldable pub get_logged_in_user_token :
    TokenCalls → Outcome (List Session) → (ℕ → Bytes) → ℕ → Outcome ℕ
unfolding get_active_wts_session_id enable_necessary_privilege
get_logged_in_user_token calls enumerated user_name token_type =
    if not (token_type == token_primary) && not (token_type == token_impersonation)
    then err invalid_input
    else do
      sess_id ← get_active_wts_session_id enumerated user_name
      if sess_id == 0 then err unknown_internal_error else do
        user_token ← calls.query_user_token sess_id
        done ← tried (enable_necessary_privilege calls.privileges []).0
        calls.duplicate_token user_token token_type

-- A session that the loop takes.
abbrev pub is_usable : (ℕ → Bytes) → Session → Bool
is_usable user_name ses =
    not (is_special ses.session_id) && is_chosen user_name ses.session_id ses.state

-- The first session that is usable is taken: a disconnected one with a user is taken before every
-- session that is listed after it, active ones too.
select_session_first :
    (user_name : ℕ → Bytes) (before after : List Session) (ses : Session)
    → All (λ s. is_usable user_name s ≡ false) before
    → is_usable user_name ses ≡ true
    → get_active_wts_session_id (ok (before ++ ses ∷ after)) user_name ≡ ok ses.session_id
unfolding get_active_wts_session_id
select_session_first user_name [] after ses h u = ground arith
select_session_first user_name (s ∷ before) after ses h u =
    ground (arith, select_session_first user_name before after ses h.1 u)

select_session_bounds :
    (user_name : ℕ → Bytes) (sessions : List Session) (id : ℕ)
    → select_session user_name sessions ≡ some id
    → (0 < id) × (id ≤ 65530)
unfolding select_session
select_session_bounds user_name [] id h = ground arith
select_session_bounds user_name (s ∷ sessions) id h =
    ground (arith, select_session_bounds user_name sessions id)

select_session-none :
    (user_name : ℕ → Bytes) (sessions : List Session)
    → All (λ s. is_usable user_name s ≡ false) sessions
    → select_session user_name sessions ≡ none
unfolding select_session
select_session-none user_name [] h = refl
select_session-none user_name (s ∷ sessions) h =
    ground (arith, select_session-none user_name sessions h.1)

found-ok : (o : Option ℕ) {id : ℕ} → found o ≡ ok id → o ≡ some id
found-ok (some x) h = cc
found-ok none h = cc

-- A session id that is found is neither the service's nor a listening one, so the caller's test
-- for 0 never fires.
get_active_wts_session_id_bounds :
    (user_name : ℕ → Bytes) (sessions : List Session) (id : ℕ)
    → get_active_wts_session_id (ok sessions) user_name ≡ ok id
    → (0 < id) × (id ≤ 65530)
unfolding get_active_wts_session_id
get_active_wts_session_id_bounds user_name sessions id h =
    select_session_bounds user_name sessions id (found-ok (select_session user_name sessions) h)

-- Where no session is usable, no token is asked for: the error of the search is returned.
get_logged_in_user_token-none :
    (calls : TokenCalls) (user_name : ℕ → Bytes) (sessions : List Session) (token_type : ℕ)
    → All (λ s. is_usable user_name s ≡ false) sessions
    → (token_type ≡ token_primary) ⊎ (token_type ≡ token_impersonation)
    → get_logged_in_user_token calls (ok sessions) user_name token_type ≡ err unknown_internal_error
unfolding get_logged_in_user_token
get_logged_in_user_token-none calls user_name sessions token_type h (inl t) =
    rw (t, select_session-none user_name sessions h)
get_logged_in_user_token-none calls user_name sessions token_type h (inr t) =
    rw (t, select_session-none user_name sessions h)

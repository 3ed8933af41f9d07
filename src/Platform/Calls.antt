-- ===== src/Platform/Calls.antt =====
-- gocode/platform/windoge_utils/token_dgd_windows.go, `wtsQuerySessionInformation` and
-- `isWindowsServer`, and `CoInitializeSecurity` of gocode/sanitizer_ole/apicall_specific_windows.go
-- (which nothing calls): procedures of Windows that are called through `syscall.SyscallN`, with all
-- that stands behind the procedure as their arguments, in order. The first of these is the number
-- of the others.
use cramc.Prelude.{
  ℕ, ◌≡◌, refl, Bool, true, false, not, ◌&&◌, ◌^◌, ◌%◌, Option, none, some, List, [], ◌∷◌, ◌==◌,
  if◌then◌else◌, get_elem?, Bytes, text_eq,
}
use cramc.Prelude.Outcome.{GoError, foreign}
use cramc.Platform.Session.{
  Session, SessionState, wts_active, wts_connected, wts_connect_query, wts_shadow, wts_disconnected,
  wts_idle, wts_listen, wts_reset, wts_down, wts_init, is_special, is_chosen, select_session,
}

-- `WTSQuerySessionInformationA` by its parameters (the server, the session, the class of the
-- information, and where the pointer to the name and its size are put): the name, if it is put at
-- its place. `IsOS` by its one parameter, and `CoInitializeSecurity` by its arguments.
pub record NativeCalls : Type 0 where
  pub query_session : ℕ → ℕ → ℕ → ℕ → ℕ → Option Bytes
  pub last_error : GoError
  pub is_os : ℕ → ℕ
  pub co_initialize_security : List ℕ → ℕ

-- A parameter of the procedure takes the argument at its place.
abbrev pub arg : List ℕ → ℕ → ℕ
arg args i = elim (get_elem? args i) [ none ↦ 0 | some a ↦ a ]

module _ (env : NativeCalls) where
  abbrev queried : Option Bytes → Option GoError × Option Bytes
  queried none = (some env.last_error, none)
  queried (some name) = (none, some name)

  -- The error, and the name that the call has left.
  unfoldable pub wts_query_session_information : ℕ → ℕ → ℕ → ℕ → ℕ → Option GoError × Option Bytes
  wts_query_session_information h_server session_id klass pp_buffer p_bytes_returned =
      let args = 5 ∷ h_server ∷ session_id ∷ klass ∷ pp_buffer ∷ p_bytes_returned ∷ [] in
      queried (env.query_session (arg args 0) (arg args 1) (arg args 2) (arg args 3) (arg args 4))

  unfoldable pub is_windows_server : Bool
  is_windows_server = let args = 1 ∷ 29 ∷ [] in not (env.is_os (arg args 0) == 0)

  -- The reserved parameters are replaced by nil.
  unfoldable pub co_initialize_security : ℕ → ℕ → ℕ → ℕ → ℕ → ℕ → ℕ → ℕ → ℕ → Option GoError
  co_initialize_security psec_desc c_auth_svc as_auth_svc reserved1 authn_level imp_level auth_list
        capabilities reserved3 =
      let ret = env.co_initialize_security (
        9 ∷ psec_desc ∷ c_auth_svc ∷ as_auth_svc ∷ 0 ∷ authn_level ∷ imp_level ∷ auth_list
        ∷ capabilities ∷ 0 ∷ []) in
      if ret % 2 ^ 32 == 0 then none else some (foreign ret)

  -- A nil pointer is read as "".
  abbrev text_at : Option Bytes → Bytes
  text_at none = []
  text_at (some name) = name

  -- `curUserName` in the round of a session, with the addresses of `userN` and `userNsize`.
  unfoldable pub cur_user_name : ℕ → ℕ → ℕ → Bytes
  unfolding wts_query_session_information
  cur_user_name user_n user_n_size session_id =
      text_at (wts_query_session_information 0 session_id 5 user_n user_n_size).1

abbrev is_active : SessionState → Bool
is_active wts_active = true
is_active _ = false

-- The first active session that is not special.
abbrev pub first_active : List Session → Option ℕ
first_active [] = none
first_active (ses ∷ sessions) =
    let rest = first_active sessions in
    if not (is_special ses.session_id) && is_active ses.state then some ses.session_id else rest

either_test :
    {A : Type 0} (x y : A) (special active : Bool)
    → (if special then y else if active then x else y) ≡ (if not special && active then x else y)
either_test x y true active = refl
either_test x y false active = refl

module _ (env : NativeCalls) (user_n user_n_size : ℕ)
    (refused : (session klass buffer size : ℕ)
      → env.query_session 5 session klass buffer size ≡ none) where
  cur_user_name_empty : (id : ℕ) → cur_user_name env user_n user_n_size id ≡ []
  unfolding cur_user_name
  cur_user_name_empty id = rw (refused 0 id 5 user_n)

  is_chosen-is_active :
      (id : ℕ) (state : SessionState)
      → is_chosen (cur_user_name env user_n user_n_size) id state ≡ is_active state
  unfolding text_eq
  is_chosen-is_active id wts_active = refl
  is_chosen-is_active id wts_disconnected = rw (cur_user_name_empty id)
  is_chosen-is_active id wts_connected = refl
  is_chosen-is_active id wts_connect_query = refl
  is_chosen-is_active id wts_shadow = refl
  is_chosen-is_active id wts_idle = refl
  is_chosen-is_active id wts_listen = refl
  is_chosen-is_active id wts_reset = refl
  is_chosen-is_active id wts_down = refl
  is_chosen-is_active id wts_init = refl

  -- The user name of a session is asked of the server 5, which is the number of the arguments: on a
  -- system on which that is no handle of a server, a disconnected session is never taken, whoever
  -- is logged in; what the loop takes is the first active one.
  pub select_session-first_active :
      (sessions : List Session)
      → select_session (cur_user_name env user_n user_n_size) sessions ≡ first_active sessions
  unfolding select_session
  select_session-first_active [] = refl
  select_session-first_active (ses ∷ sessions) = rw (is_chosen-is_active ses.session_id ses.state) (
      rw (select_session-first_active sessions)
        (either_test _ _ (is_special ses.session_id) (is_active ses.state)))

-- Every Windows counts as a server, since 1 is asked for (any Windows NT) and not 29.
is_windows_server-nt :
    (env : NativeCalls) → (env.is_os 1 == 0) ≡ false → is_windows_server env ≡ true
unfolding is_windows_server
is_windows_server-nt env h = rw h

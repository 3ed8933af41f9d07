-- ===== src/Platform/Spawn.antt =====
-- gocode/sanitizer_ole/entrypoint_windows.go, the start of the helper process in `StartSanitizer`,
-- with `CheckRunningUnderSYSTEM` of gocode/platform/windoge_utils/token_dgd_windows.go.
use cramc.Prelude.{ℕ, Bool, false, Option, none, some, List, if◌then◌else◌, Bytes, codes, text_eq}
use cramc.Platform.Session.{Session, TokenCalls, get_logged_in_user_token, token_primary}
use cramc.Prelude.Outcome.{Outcome, ok, err, panic, blocked, ◌>>=◌, ◌>>◌}

-- `uuid.NewUUID`, the id of `user.Current`, what `GetLoggedInUserToken` calls, the environment of a
-- token, and `os.StartProcess` on the helper, with the token of another user or without. The helper
-- leaves or not, by the lines that it was sent.
pub record SpawnEnv : Type 0 where
  pub new_uuid : Outcome Bytes
  pub current_uid : Outcome Bytes
  pub token_calls : TokenCalls
  pub sessions : Outcome (List Session)
  pub user_name : ℕ → Bytes
  pub environ : ℕ → Outcome (Unit {0})
  pub start_process : Option ℕ → Outcome (Unit {0})
  pub helper_leaves : List Bytes → Bool

abbrev pub wellknown_system_sid : Bytes
wellknown_system_sid = codes "S-1-5-18"

-- `CheckRunningUnderSYSTEM`
unfoldable pub check_running_under_system : Outcome Bytes → Outcome Bool
check_running_under_system current_uid = do uid ← current_uid; ok (text_eq uid wellknown_system_sid)

-- `runAsSystem, _ :=`
abbrev value_of : Outcome Bool → Outcome Bool
value_of (ok b) = ok b
value_of (err e) = ok false
value_of panic = panic
value_of blocked = blocked

-- The helper process: under SYSTEM it is started for the user who is logged in.
unfoldable pub helper_started : SpawnEnv → Outcome (Unit {0})
unfolding check_running_under_system get_logged_in_user_token
helper_started env = do
  run_as_system ← value_of (check_running_under_system env.current_uid)
  if run_as_system
      then (do
        user_tkn ← get_logged_in_user_token env.token_calls env.sessions env.user_name token_primary
        env.environ user_tkn
        env.start_process (some user_tkn))
      else env.start_process none

-- ===== src/Platform/Privilege.antt =====
-- gocode/platform/windoge_utils/token_dgd_windows.go: `enableNecessaryPrivilege`, which
-- `GetLoggedInUserToken` calls. The calls of Windows on a token are parameters.
use mathlib.Core.List.{Memᴰ}
use mathlib.Core.List.Memᴰ
use cramc.Prelude.{◌≡◌, refl, Option, none, some, List, [], ◌∷◌, ◌++◌, Bytes, codes}
use cramc.Prelude.Outcome.{GoError}

-- `LookupPrivilegeValue` (with the conversion of the name) and `AdjustTokenPrivileges`, by the name
-- of the privilege.
pub record PrivilegeEnv : Type 0 where
  pub open_process_token : Option GoError
  pub lookup_privilege_value : Bytes → Option GoError
  pub adjust_token_privileges : Bytes → Option GoError

abbrev necessary_privileges : List Bytes
necessary_privileges =
    codes "SeTcbPrivilege"
    ∷ codes "SeAssignPrimaryTokenPrivilege"
    ∷ codes "SeImpersonatePrivilege"
    ∷ []

abbrev adjusted : Option GoError → Option GoError → Option GoError
adjusted (some e) adjust = some e
adjusted none adjust = adjust

-- `checkLUIDUnderPrivAndAdjust`
unfoldable pub check_luid_under_priv_and_adjust : PrivilegeEnv → Bytes → Option GoError
check_luid_under_priv_and_adjust env priv_name =
    adjusted (env.lookup_privilege_value priv_name) (env.adjust_token_privileges priv_name)

abbrev after_adjust : Option GoError → Bytes → List Bytes → List Bytes
after_adjust none priv enabled = enabled ++ priv ∷ []
after_adjust (some e) priv enabled = enabled

-- The loop; an error is only logged. `enabled` is what the token has.
unfoldable pub adjust_each : PrivilegeEnv → List Bytes → List Bytes → List Bytes
unfolding check_luid_under_priv_and_adjust
adjust_each env [] enabled = enabled
adjust_each env (priv ∷ privs) enabled =
    adjust_each env privs (after_adjust (check_luid_under_priv_and_adjust env priv) priv enabled)

abbrev token_opened : PrivilegeEnv → Option GoError → List Bytes → Option GoError × List Bytes
token_opened env (some e) enabled = (some e, enabled)
token_opened env none enabled = (none, adjust_each env necessary_privileges enabled)

unfoldable pub enable_necessary_privilege : PrivilegeEnv → List Bytes → Option GoError × List Bytes
unfolding adjust_each
enable_necessary_privilege env enabled = token_opened env env.open_process_token enabled

-- A privilege that can be looked up and adjusted.
abbrev IsGranted : PrivilegeEnv → Bytes → Type 0
IsGranted env priv =
    (env.lookup_privilege_value priv ≡ none) × (env.adjust_token_privileges priv ≡ none)

adjust_each-keeps :
    (env : PrivilegeEnv) (privs enabled : List Bytes) {priv : Bytes}
    → Memᴰ priv enabled
    → Memᴰ priv (adjust_each env privs enabled)
unfolding adjust_each
adjust_each-keeps env [] enabled m = m
adjust_each-keeps env (p ∷ privs) enabled m =
    adjust_each-keeps env privs _ (kept (check_luid_under_priv_and_adjust env p) p enabled m)
  where
    kept :
        (o : Option GoError) (p : Bytes) (enabled : List Bytes) {priv : Bytes}
        → Memᴰ priv enabled
        → Memᴰ priv (after_adjust o p enabled)
    kept none p enabled m = Memᴰ.append_left (p ∷ []) m
    kept (some e) p enabled m = m

adjust_each-IsGranted :
    (env : PrivilegeEnv) (privs enabled : List Bytes) {priv : Bytes}
    → Memᴰ priv privs
    → IsGranted env priv
    → Memᴰ priv (adjust_each env privs enabled)
unfolding adjust_each check_luid_under_priv_and_adjust
adjust_each-IsGranted env [] enabled m g = elim m [ ]
adjust_each-IsGranted env (p ∷ privs) enabled {priv} (Memᴰ.head e) (l, a) =
    adjust_each-keeps env privs _
      (rw (← e) (rw l (rw a (Memᴰ.append_right enabled (Memᴰ.head refl)))))
adjust_each-IsGranted env (p ∷ privs) enabled (Memᴰ.tail m) g =
    adjust_each-IsGranted env privs _ m g

-- Once the process token is opened, success is returned, and every necessary privilege that can be
-- granted is enabled, whether or not the others can; what was enabled before stays.
enable_necessary_privilege-IsGranted :
    (env : PrivilegeEnv) (enabled : List Bytes) (priv : Bytes)
    → env.open_process_token ≡ none
    → Memᴰ priv necessary_privileges
    → IsGranted env priv
    → let (e, now) = enable_necessary_privilege env enabled in (e ≡ none) × Memᴰ priv now
unfolding enable_necessary_privilege
enable_necessary_privilege-IsGranted env enabled priv opens m g =
    rw opens (refl, adjust_each-IsGranted env necessary_privileges enabled m g)

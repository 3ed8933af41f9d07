-- ===== src/Platform/Impersonation.antt =====
-- gocode/platform/windoge_utils/token_dgd_windows.go: `PrepareForTokenImpersonation` with the calls
-- that disable the predefined cache of the registry. The program does not call it yet.
use cramc.Prelude.{
  ℕ, Bool, true, false, not, Option, none, some, ◌+◌, ◌-◌, ◌%◌, ◌^◌, ◌==◌, ◌≡◌, refl, ap, ◌∙◌,
  arith, if◌then◌else◌,
}
use cramc.Prelude.Outcome.{GoError, foreign}

-- `RevertToSelf`, and what the procedures of advapi32 return: `RegDisablePredefinedCache` with the
-- last error, which `Call` never leaves nil.
pub record ImpersonationEnv : Type 0 where
  pub revert_to_self : Option GoError
  pub reg_disable_predefined_cache : ℕ × GoError
  pub reg_disable_predefined_cache_ex : ℕ

-- The thread of the goroutine: how often `LockOSThread` has bound it, whether it impersonates, and
-- whether the process reads the registry without the cache.
pub record Thread : Type 0 where
  pub locks : ℕ
  pub impersonating : Bool
  pub cache_disabled : Bool

-- `LSTATUS(ret) != ERROR_SUCCESS`
abbrev is_error : ℕ → Bool
is_error ret = not (ret % 2 ^ 32 == 0)

abbrev pub reg_disable_predefined_cache : ImpersonationEnv → Option GoError
reg_disable_predefined_cache env =
    let (ret, last_error) = env.reg_disable_predefined_cache in
    if is_error ret then some last_error else none

abbrev pub reg_disable_predefined_cache_ex : ImpersonationEnv → Option GoError
reg_disable_predefined_cache_ex env =
    let ret = env.reg_disable_predefined_cache_ex in
    if is_error ret then some (foreign ret) else none

-- `runtime.UnlockOSThread` does nothing on a thread that is not locked.
abbrev unlock_os_thread : Thread → Thread
unlock_os_thread t = record t { locks = t.locks - 1 }

abbrev lock_os_thread : Thread → Thread
lock_os_thread t = record t { locks = t.locks + 1 }

abbrev reverted : Option GoError → Thread → Option GoError × Thread
reverted none t = (none, unlock_os_thread (record t { impersonating = false }))
reverted (some e) t = (some e, unlock_os_thread t)

abbrev cache_off : Option GoError → Thread → Option GoError × Thread
cache_off none t = (none, record t { cache_disabled = true })
cache_off (some e) t = (some e, t)

unfoldable pub prepare_for_token_impersonation :
    ImpersonationEnv → Bool → Thread → Option GoError × Thread
prepare_for_token_impersonation env is_reverse t =
    if is_reverse
    then reverted env.revert_to_self t
    else cache_off (reg_disable_predefined_cache env) (lock_os_thread t)

reverted_locks : (o : Option GoError) (t : Thread) → (reverted o t).1.locks ≡ t.locks - 1
reverted_locks none t = refl
reverted_locks (some e) t = refl

cache_off_locks : (o : Option GoError) (t : Thread) → (cache_off o t).1.locks ≡ t.locks
cache_off_locks none t = refl
cache_off_locks (some e) t = refl

-- The way there and back leaves the goroutine bound to its thread as often as before, whichever of
-- the two calls returns an error: a preparation that failed has to be reverted, too.
prepare_for_token_impersonation-locks :
    (env : ImpersonationEnv) (t : Thread)
    → let (e, prepared) = prepare_for_token_impersonation env false t in
      (prepare_for_token_impersonation env true prepared).1.locks ≡ t.locks
unfolding prepare_for_token_impersonation
prepare_for_token_impersonation-locks env t =
    let o = reg_disable_predefined_cache env in
    reverted_locks env.revert_to_self (cache_off o (lock_os_thread t)).1
    ∙ ap (λ n. n - 1) (cache_off_locks o (lock_os_thread t))
    ∙ omega arith

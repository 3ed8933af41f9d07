-- ===== src/Prelude/Outcome.antt =====
-- What a Go call comes back with: a value, an `error`, a panic of the goroutine, or
-- nothing, because the goroutine waits and nothing wakes it. The errors are
-- those of gocode/customerrs/err.go; `foreign` is an error that the operating system, the standard
-- library or a third-party package returned.
use Prim.Native.Nat.{ℕ}
use mathlib.Core.Path.{◌≡◌, refl}

pub data GoError : Type 0 where
  insufficient_privilege unsupported_platform unknown_internal_error decryption_failed : GoError
  device_inaccessible invalid_input fallback_to_compatible_solution : GoError
  action_path_must_be_dir file_exists_on_cloud_only no_scan_set_but_no_list_provided : GoError
  not_latest_version excel_worker_uninitialized excel_workbooks_unable_2_fetch : GoError
  excel_current_workbook_null_ptr excel_no_macro_found yara_x_compilation_failure : GoError
  telemetry_must_be_inited_first runs_on_system_machine_account priv_helper_lock_exists : GoError
  rpc_connection_not_established rpc_response_unexpected : GoError
  foreign : ℕ → GoError

pub data Outcome {ℓ} (A : Type ℓ) : Type ℓ where
  ok : A → Outcome A
  err : GoError → Outcome A
  panic : Outcome A
  blocked : Outcome A

infixl 5 ◌>>=◌ ◌>>◌
abbrev pub ◌>>=◌ {ℓ κ} : {A : Type ℓ} {B : Type κ} → Outcome A → (A → Outcome B) → Outcome B
ok a >>= f = f a
err e >>= f = err e
panic >>= f = panic
blocked >>= f = blocked

abbrev pub ◌>>◌ {ℓ κ} : {A : Type ℓ} {B : Type κ} → Outcome A → Outcome B → Outcome B
m >> k = m >>= λ _. k

-- A chain that returns has run each of its steps.
pub >>=-eq-ok {ℓ κ} :
    {A : Type ℓ} {B : Type κ} (m : Outcome A) (next : A → Outcome B) {y : B}
    → (m >>= next) ≡ ok y
    → (x : A) × (m ≡ ok x) × (next x ≡ ok y)
>>=-eq-ok blocked next e = cc
>>=-eq-ok panic next e = cc
>>=-eq-ok (err g) next e = cc
>>=-eq-ok (ok x) next e = (x, refl, e)

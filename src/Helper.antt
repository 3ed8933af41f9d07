-- ===== src/Helper.antt =====
-- gocode/cmd/privhelper/main.go, with the first half of `Start` in
-- gocode/sanitizer_ole/rpc_server.go and `LiftVBAScriptingAccess` of entrypoint_windows.go. A panic
-- of the main goroutine runs its deferred calls; a panic of another goroutine ends the process
-- without them. Logs and the telemetry are left out, and what the killing of Excel's processes
-- returns is dropped by the code.
pub mod Lock
pub mod Race
use cramc.Prelude.{
  ℕ, zero, suc, ◌+◌, ◌-◌, ◌*◌, ◌/◌, ◌%◌, ◌^◌, ◌≤◌, ◌<◌, String, ◌≡◌, refl, sym, ap, ◌∙◌, ◌≢◌, ◌↔◌,
  ◌⊎◌, inl, inr, Bool, true, false, not, ◌&&◌, ◌||◌, Option, none, some, List, [], ◌∷◌, ◌++◌, map,
  append-nil, append_assoc, arith, ltb, leb, ◌==◌, if◌then◌else◌, Bool-cases, Option-cases, length,
  take, drop, replicate, any, All, length-append, length-drop, take-append, drop-append, length-map,
  get_elem?, set, erase_at, get_elem?-append, set-append, erase_at-append, get_elem?-length, Bytes,
  codes, text_eq, text_eq_iff, text_eq_refl, text_eq-append, text_ne,
}
use cramc.Prelude.Outcome.{>>=-eq-ok, GoError, Outcome, ok, err, panic, blocked, ◌>>=◌, ◌>>◌}
use cramc.Disk.{Disk, put}
use cramc.Platform.Spawn.{check_running_under_system}
use cramc.Release.{check_file_logical_exists}

-- The values of the registry of the current user, by key and name.
abbrev Registry : Type 0
Registry = Bytes → Bytes → Option ℕ

unfoldable pub set_value : Bytes → Bytes → ℕ → Registry → Registry
set_value key name v r k n = if text_eq k key && text_eq n name then some v else r k n

-- The calls of the helper: the first of COM, the start of Excel (`Init` and `GetWorkbooks` of the
-- worker), the registry, the pipe and the lock file. `working` is what the served documents do to
-- the disk until the process ends: backups, saved workbooks and renamed files.
pub record HelperEnv : Type 0 where
  pub current_uid : Outcome Bytes
  pub stat_error : Bytes → Option GoError
  pub create_error : Option GoError
  pub remove_error : Option GoError
  pub listen_error : Option GoError
  pub create_key_error : Option GoError
  pub set_value_error : Option GoError
  pub co_initialize_error : Option GoError
  pub worker_init : Outcome (Unit {0})
  pub worker_workbooks : Outcome (Unit {0})
  pub working : Disk → Disk

-- How the process ends: `main` returns, panics, or another goroutine panics; or it never ends.
pub data HelperEnd : Type 0 where
  returned : HelperEnd
  main_panicked : HelperEnd
  goroutine_panicked : HelperEnd
  stuck : HelperEnd

pub record Machine : Type 0 where
  pub disk : Disk
  pub registry : Registry

abbrev pub lock_file : Bytes
lock_file = codes "privhelper.lock"

abbrev security_key : Bytes → Bytes → Bytes
security_key version component =
    codes "Software\\Microsoft\\Office\\"
    ++ version
    ++ codes "\\"
    ++ component
    ++ codes "\\Security"

abbrev value_set : Bytes → Bytes → Option GoError → Registry → Option GoError × Registry
value_set version component (some e) r = (some e, r)
value_set version component none r =
    (none, set_value (security_key version component) (codes "AccessVBOM") 1 r)

module _ (env : HelperEnv) where
  abbrev key_created : Bytes → Bytes → Option GoError → Registry → Option GoError × Registry
  key_created version component (some e) r = (some e, r)
  key_created version component none r = value_set version component env.set_value_error r

  -- `LiftVBAScriptingAccess`
  unfoldable pub lift_vba_scripting_access : Bytes → Bytes → Registry → Option GoError × Registry
  unfolding set_value
  lift_vba_scripting_access version component r =
      key_created version component env.create_key_error r

  abbrev tried : Option GoError → Outcome (Unit {0})
  tried none = ok tt
  tried (some e) = err e

  -- What `Start` does before it accepts connections; an error makes it return.
  unfoldable pub excel_ready : Option GoError → Outcome (Unit {0})
  excel_ready lifted = do
    tried lifted
    tried env.co_initialize_error
    env.worker_init
    env.worker_workbooks

  -- `Start`: `ran` is how the server ends once it accepts connections.
  abbrev served : Outcome (Unit {0}) → HelperEnd → HelperEnd
  served (ok u) ran = ran
  served (err e) ran = returned
  served panic ran = main_panicked
  served blocked ran = stuck

  abbrev pub served_disk : Outcome (Unit {0}) → Disk → Disk
  served_disk (ok u) disk = env.working disk
  served_disk _ disk = disk

  unfoldable pub start : HelperEnd → Machine → HelperEnd × Machine
  unfolding lift_vba_scripting_access excel_ready
  start ran m =
      let (lifted, r) = lift_vba_scripting_access (codes "16.0") (codes "Excel") m.registry in
      let ready = excel_ready lifted in
      (served ready ran, record { disk = served_disk ready m.disk; registry = r })

  abbrev removed : Option GoError → Disk → Disk
  removed none disk = put lock_file none disk
  removed (some e) disk = disk

  -- `defer os.Remove(lockFile)`
  abbrev unlocked : HelperEnd → Disk → Disk
  unlocked returned disk = removed env.remove_error disk
  unlocked main_panicked disk = removed env.remove_error disk
  unlocked goroutine_panicked disk = disk
  unlocked stuck disk = disk

  abbrev finished : HelperEnd × Machine → HelperEnd × Machine
  finished (end, m) = (end, record m { disk = unlocked end m.disk })

  abbrev listening : Option GoError → HelperEnd → Machine → HelperEnd × Machine
  listening (some e) ran m = finished (main_panicked, m)
  listening none ran m = finished (start ran m)

  abbrev locked : Option GoError → HelperEnd → Machine → HelperEnd × Machine
  locked (some e) ran m = (main_panicked, m)
  locked none ran m =
      listening env.listen_error ran (record m { disk = put lock_file (some []) m.disk })

  -- The tests before the lock: an error of either look-up of the user ends in a panic.
  abbrev allowed : Outcome Bool → HelperEnd → Machine → HelperEnd × Machine
  allowed (ok run_as_sys) ran m =
      if run_as_sys || check_file_logical_exists env.stat_error lock_file m.disk
      then (main_panicked, m)
      else locked env.create_error ran m
  allowed blocked ran m = (stuck, m)
  allowed _ ran m = (main_panicked, m)

  -- `main`
  unfoldable pub helper_main : HelperEnd → Machine → HelperEnd × Machine
  unfolding check_running_under_system start
  helper_main ran m = allowed (check_running_under_system env.current_uid) ran m

-- ===== src/Helper/Lock.antt =====
-- Theorems on the lock file of gocode/cmd/privhelper/main.go.
use cramc.Prelude.{
  ℕ, ◌+◌, ◌≤◌, ◌≡◌, refl, ◌∙◌, ◌≢◌, Bool, false, Option, none, some, [], if◌then◌else◌, Bytes,
  codes, text_eq, text_ne,
}
use cramc.Prelude.Outcome.{GoError, Outcome, ok, err, panic, blocked}
use cramc.Disk.{put, Disk, put_same, put_other}
use cramc.Platform.Spawn.{check_running_under_system, wellknown_system_sid}
use cramc.Release.{check_file_logical_exists}
use cramc.Rpc.Quit.{Quit, Reach, begun}
use cramc.Rpc.Quit.Safety.{panics_twice}
use cramc.Helper.{
  HelperEnv, HelperEnd, returned, main_panicked, goroutine_panicked, stuck, Machine, lock_file,
  lift_vba_scripting_access, excel_ready, start, served_disk, unlocked, listening, helper_main,
}

-- A user that is not SYSTEM, and a lock file that can be examined, created and removed and is no
-- document that is served.
pub record CanLock (env : HelperEnv) : Type 0 where
  pub uid : Bytes
  pub known : env.current_uid ≡ ok uid
  pub not_system : uid ≢ wellknown_system_sid
  pub examines : env.stat_error lock_file ≡ none
  pub creates : env.create_error ≡ none
  pub removes : env.remove_error ≡ none
  pub spares : (disk : Disk) → env.working disk lock_file ≡ disk lock_file

-- The lock that a process leaves.
abbrev pub lock_left : HelperEnd → Option Bytes
lock_left returned = none
lock_left main_panicked = none
lock_left goroutine_panicked = some []
lock_left stuck = some []

module _ (env : HelperEnv) (can : CanLock env) (m : Machine) where
  not_under_system : check_running_under_system env.current_uid ≡ ok false
  unfolding check_running_under_system
  not_under_system = rw can.known (rw (text_ne can.uid wellknown_system_sid can.not_system))

  -- Behind the tests, where no lock is there.
  helper_main_free :
      (ran : HelperEnd)
      → m.disk lock_file ≡ none
      → helper_main env ran m
        ≡ listening env env.listen_error ran (record m { disk = put lock_file (some []) m.disk })
  unfolding helper_main check_file_logical_exists text_eq
  helper_main_free ran free = rw not_under_system (rw free (rw can.creates))

  -- Where one is there.
  helper_main_refused :
      (ran : HelperEnd) (content : Bytes)
      → m.disk lock_file ≡ some content
      → helper_main env ran m ≡ (main_panicked, m)
  unfolding helper_main check_file_logical_exists text_eq
  helper_main_refused ran content there = rw not_under_system (rw there (rw can.examines))

  unlocked-lock_file :
      (end : HelperEnd) (disk : Disk)
      → disk lock_file ≡ some []
      → unlocked env end disk lock_file ≡ lock_left end
  unlocked-lock_file returned disk e = rw can.removes (put_same disk lock_file none)
  unlocked-lock_file main_panicked disk e = rw can.removes (put_same disk lock_file none)
  unlocked-lock_file goroutine_panicked disk e = e
  unlocked-lock_file stuck disk e = e

  unlocked-other :
      (end : HelperEnd) (disk : Disk) (q : Bytes) → q ≢ lock_file → unlocked env end disk q ≡ disk q
  unlocked-other returned disk q n = rw can.removes (put_other disk lock_file none q n)
  unlocked-other main_panicked disk q n = rw can.removes (put_other disk lock_file none q n)
  unlocked-other goroutine_panicked disk q n = refl
  unlocked-other stuck disk q n = refl

  served_disk-at :
      (o : Outcome (Unit {0})) (disk : Disk) (q : Bytes)
      → ((disk : Disk) → env.working disk q ≡ disk q)
      → served_disk env o disk q ≡ disk q
  served_disk-at (ok u) disk q k = k disk
  served_disk-at (err e) disk q k = refl
  served_disk-at panic disk q k = refl
  served_disk-at blocked disk q k = refl

  start-at :
      (ran : HelperEnd) (k : Machine) (q : Bytes)
      → ((disk : Disk) → env.working disk q ≡ disk q)
      → (start env ran k).1.disk q ≡ k.disk q
  unfolding start
  start-at ran k q untouched = served_disk-at _ k.disk q untouched

  listening-lock_file :
      (o : Option GoError) (ran : HelperEnd) (k : Machine) (q : Bytes)
      → k.disk lock_file ≡ some []
      → ((disk : Disk) → env.working disk q ≡ disk q)
      → q ≢ lock_file
      → let (end, k') = listening env o ran k in
        (k'.disk lock_file ≡ lock_left end) × (k'.disk q ≡ k.disk q)
  listening-lock_file (some e) ran k q there untouched n =
      (unlocked-lock_file main_panicked k.disk there, unlocked-other main_panicked k.disk q n)
  listening-lock_file none ran k q there untouched n =
      let (end, k') = start env ran k in
      (
        unlocked-lock_file end k'.disk (start-at ran k lock_file can.spares ∙ there),
        unlocked-other end k'.disk q n ∙ start-at ran k q untouched,
      )

-- A helper that finds no lock, for a user that is not SYSTEM and where the lock file can be
-- examined, created and removed: however it ends, it leaves no lock behind it, unless it is stuck
-- or a goroutine other than the main one panics, whichever step fails after the lock was made; and
-- a file that none of the served documents touches is as it was.
pub helper_main-lock_left :
    (env : HelperEnv) (m : Machine) (ran : HelperEnd) (q : Bytes)
    → CanLock env
    → m.disk lock_file ≡ none
    → q ≢ lock_file
    → ((disk : Disk) → env.working disk q ≡ disk q)
    → let (end, m') = helper_main env ran m in
      (m'.disk lock_file ≡ lock_left end) × (m'.disk q ≡ m.disk q)
helper_main-lock_left env m ran q can free n untouched =
    let made : Machine = record m { disk = put lock_file (some []) m.disk } in
    let (lock, other) =
      listening-lock_file env can m env.listen_error ran made q
        (put_same m.disk lock_file (some [])) untouched n in
    rw (helper_main_free env can m ran free)
      (lock, other ∙ put_other m.disk lock_file (some []) q n)

-- How the process of a server ends.
abbrev pub ended : Quit → HelperEnd
ended q = if q.panicked then goroutine_panicked else returned

-- The machine behind a process that ended by another goroutine.
abbrev left_locked : HelperEnv → Machine → Machine
left_locked env m = record {
  disk = env.working (put lock_file (some []) m.disk);
  registry = (lift_vba_scripting_access env (codes "16.0") (codes "Excel") m.registry).1;
}

helper_main_panicked :
    (env : HelperEnv) (m : Machine)
    → CanLock env
    → m.disk lock_file ≡ none
    → env.listen_error ≡ none
    → excel_ready env (lift_vba_scripting_access env (codes "16.0") (codes "Excel") m.registry).0
      ≡ ok tt
    → helper_main env goroutine_panicked m ≡ (goroutine_panicked, left_locked env m)
unfolding start
helper_main_panicked env m can free listens ready =
    helper_main_free env can m goroutine_panicked free ∙ simp (listens, ready)

-- A helper that is told twice to end, by requests, refused documents or a signal, can end so that
-- its lock stays, and then no helper runs any more: every later one panics and changes nothing.
pub helper_locked_out :
    (env : HelperEnv) (m : Machine) (quits refusals : ℕ) (signalled : Bool)
    → CanLock env
    → m.disk lock_file ≡ none
    → env.listen_error ≡ none
    → excel_ready env (lift_vba_scripting_access env (codes "16.0") (codes "Excel") m.registry).0
      ≡ ok tt
    → 2 ≤ quits + refusals + (if signalled then 1 else 0)
    → (r : Quit) × Reach (begun quits refusals signalled) r
      × (let (end, m') = helper_main env (ended r) m in
          (end ≡ goroutine_panicked)
          × ((ran : HelperEnd) → helper_main env ran m' ≡ (main_panicked, m')))
helper_locked_out env m quits refusals signalled can free listens ready twice =
    let (r, reached, panics) = panics_twice quits refusals signalled twice in
    (
      r,
      reached,
      rw panics (
          rw (helper_main_panicked env m can free listens ready) (
            refl,
            λ ran.
                helper_main_refused env can (left_locked env m) ran []
                  (can.spares _ ∙ put_same m.disk lock_file (some [])),
          )),
    )

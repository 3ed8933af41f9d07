-- ===== src/Helper/Race.antt =====
-- Several helpers that are started on one machine (gocode/cmd/privhelper/main.go), for a user that
-- is not SYSTEM and where the lock file can be examined, created and removed. Between the test of
-- the lock file and its creation there may be steps of another helper. `winio.ListenPipe` wants a
-- pipe that is not there yet.
pub mod Lost
use cramc.Prelude.{ℕ, ◌≡◌, Bool, true, false, none, some, [], ◌==◌, if◌then◌else◌}
use cramc.Disk.{Disk, put}
use cramc.Release.{check_file_logical_exists}
use cramc.Helper.{lock_file}

-- Where a helper is in `main`: before the test of the lock, behind it, behind the creation of the
-- lock, in `Start`, or ended.
pub data Stage : Type 0 where
  before_test may_lock has_locked in_start gone : Stage

pub record Machines : Type 0 where
  pub disk : Disk
  pub pipe : Bool
  pub stage : ℕ → Stage

abbrev pub lock_exists : Disk → Bool
lock_exists = check_file_logical_exists (λ p. none) lock_file

-- A helper goes on to a stage.
abbrev pub to_stage : ℕ → Stage → Machines → Machines
to_stage i s m = record m { stage = λ j. if j == i then s else m.stage j }

-- The deferred removal of the lock file.
abbrev pub leaving : ℕ → Machines → Machines
leaving i m = record (to_stage i gone m) { disk = put lock_file none m.disk }

pub data Step (m n : Machines) : Type 0 where
  test_free :
      (i : ℕ)
      → m.stage i ≡ before_test
      → lock_exists m.disk ≡ false
      → n ≡ to_stage i may_lock m
      → Step m n
  test_taken :
      (i : ℕ)
      → m.stage i ≡ before_test
      → lock_exists m.disk ≡ true
      → n ≡ to_stage i gone m
      → Step m n
  create :
      (i : ℕ)
      → m.stage i ≡ may_lock
      → n ≡ record (to_stage i has_locked m) { disk = put lock_file (some []) m.disk }
      → Step m n
  listen :
      (i : ℕ)
      → m.stage i ≡ has_locked
      → m.pipe ≡ false
      → n ≡ record (to_stage i in_start m) { pipe = true }
      → Step m n
  listen_fails : (i : ℕ) → m.stage i ≡ has_locked → m.pipe ≡ true → n ≡ leaving i m → Step m n
  start_returns :
      (i : ℕ) → m.stage i ≡ in_start → n ≡ record (leaving i m) { pipe = false } → Step m n

pub data Reach (m : Machines) : Machines → Type 0 where
  here : Reach m m
  next : {n o : Machines} → Reach m n → Step n o → Reach m o

-- ===== src/Excel/Serial.antt =====
-- The goroutines that `excelFileCleanProcedure` of gocode/sanitizer_ole/rpc_server.go starts, one
-- for each document of the queue, over the one worker that they share. A call of the worker is a
-- step, and between two steps of one goroutine there may be any of the others. No timeout fires,
-- and no call panics, which would end the process; one that never returns has no step.
pub mod Midway
pub mod Order
pub mod Saved
pub mod Progress
pub mod Ends
use cramc.Prelude.{ℕ, ◌≡◌, Bool, true, false, Option, none, some, ◌==◌, if◌then◌else◌}
use cramc.Prelude.Outcome.{GoError, Outcome, ok, err}
use cramc.Rpc.Server.{CleanTask}
use cramc.Excel.Com.{Excel}
use cramc.Excel.Sanitize.{sanitize_workbook}
use cramc.Excel.Clean.{CleanEnv, Cleaner, reported, open_workbook, finishing}

-- Where the goroutine of a document is: before `Lock`, before `OpenWorkbook`, before
-- `SanitizeWorkbook`, before its deferred calls, or at its end.
pub data Place : Type 0 where
  arriving has_lock has_opened has_reported at_end : Place

pub record Run (x : Excel) : Type 0 where
  pub cleaner : Cleaner x
  pub place : ℕ → Place

module _ (x : Excel) (env : CleanEnv x) (tasks : ℕ → CleanTask) where
  -- A document goes on to a place and leaves the worker in a state.
  abbrev pub went : ℕ → Place → Cleaner x → Run x → Run x
  went i to c r = record { cleaner = c; place = λ j. if j == i then to else r.place j }

  pub data Step (r t : Run x) : Type 0 where
    acquire :
        (i : ℕ)
        → r.place i ≡ arriving
        → r.cleaner.locked ≡ false
        → t ≡ went i has_lock (record (r.cleaner) { locked = true }) r
        → Step r t
    open_ok :
        (i : ℕ) (c : Cleaner x)
        → r.place i ≡ has_lock
        → open_workbook x env (tasks i).path r.cleaner ≡ (ok tt, c)
        → t ≡ went i has_opened c r
        → Step r t
    open_err :
        (i : ℕ) (e : GoError) (c : Cleaner x)
        → r.place i ≡ has_lock
        → open_workbook x env (tasks i).path r.cleaner ≡ (err e, c)
        → t ≡ went i at_end (record (reported x env (some e) c) { locked = false }) r
        → Step r t
    sanitize_ok :
        (i : ℕ) (w : Option x.Workbook)
        → r.place i ≡ has_opened
        → sanitize_workbook x (tasks i).action (tasks i).dest_module r.cleaner.current_workbook
          ≡ (ok tt, w)
        → t
          ≡ went i has_reported
              (reported x env none (record (r.cleaner) { current_workbook = w }))
              r
        → Step r t
    sanitize_err :
        (i : ℕ) (e : GoError) (w : Option x.Workbook)
        → r.place i ≡ has_opened
        → sanitize_workbook x (tasks i).action (tasks i).dest_module r.cleaner.current_workbook
          ≡ (err e, w)
        → t
          ≡ went i has_reported
              (reported x env (some e) (record (r.cleaner) { current_workbook = w }))
              r
        → Step r t
    finish :
        (i : ℕ)
        → r.place i ≡ has_reported
        → t ≡ went i at_end (finishing x env (tasks i).path r.cleaner) r
        → Step r t

  pub data Reach (r : Run x) : Run x → Type 0 where
    here : Reach r r
    next : {s t : Run x} → Reach r s → Step s t → Reach r t

-- No document has come to its `Lock` yet.
abbrev pub begun : {x : Excel} → Cleaner x → Run x
begun c = record { cleaner = c; place = λ i. arriving }

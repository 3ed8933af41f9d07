-- ===== src/Excel/Mutex.antt =====
-- The mutex of the Excel worker among the documents of the helper (`excelFileCleanProcedure` in
-- gocode/sanitizer_ole/rpc_server.go; `Lock`, `Unlock` and `Init` in excelop_windows.go), with the
-- timeouts of their procedures. A document has a goroutine that cleans it and a procedure that
-- waits for its report or for the timeout. `Init` makes a new mutex, and a goroutine that waits in
-- `Lock` goes on to wait for the one that it has called. What is done to a workbook is left out,
-- and a panic that ends the process there.
pub mod Alone
pub mod Starved
use cramc.Prelude.{ℕ, ◌+◌, ◌≡◌, Bool, true, false, ◌==◌, if◌then◌else◌}
use cramc.Prelude.Outcome.{Outcome, ok, err, panic, blocked}
use cramc.Excel.Timeout.{Worker, stop_excel, restart_excel, unlock}

-- Where the goroutine of a document is: before `Lock`, in the `Lock` of the mutex of a number,
-- between its `Lock` and its `Unlock`, or behind it.
pub data At : Type 0 where
  arriving : At
  waits : ℕ → At
  works : At
  left : At

-- The report is in `errC`, which has room for it; the procedure is in its select, or its timeout
-- has ended Excel and not yet started it again.
pub record Doc : Type 0 where
  pub place : At
  pub reported : Bool
  pub watched : Bool
  pub restarting : Bool

-- `worker` tells whether the mutex that it points to now is held, `held` of those before.
pub record Pool : Type 0 where
  pub worker : Worker
  pub current : ℕ
  pub held : ℕ → Bool
  pub docs : ℕ → Doc
  pub fatal : Bool

abbrev pub put {ℓ} : {A : Type ℓ} → ℕ → A → (ℕ → A) → ℕ → A
put i a f j = if j == i then a else f j

abbrev pub is_held : Pool → ℕ → Bool
is_held p n = if n == p.current then p.worker.mu_held else p.held n

abbrev pub moved : ℕ → At → Pool → Pool
moved i place p = record p { docs = put i (record (p.docs i) { place = place }) p.docs }

abbrev pub holding : ℕ → Pool → Pool
holding n p =
    if n == p.current
    then record p { worker = record (p.worker) { mu_held = true } }
    else record p { held = put n true p.held }

abbrev pub unwatched : ℕ → Pool → Pool
unwatched i p = record p { docs = put i (record (p.docs i) { watched = false }) p.docs }

-- A start of Excel that comes back makes a new mutex, which nobody holds.
abbrev pub restarted : Outcome (Unit {0}) → Worker → Pool → Pool
restarted (ok u) w p = record p {
  worker = w;
  current = p.current + 1;
  held = put p.current p.worker.mu_held p.held;
}
restarted created w p = record p { worker = w }

pub data Step (p q : Pool) : Type 0 where
  arrive : (i : ℕ) → (p.docs i).place ≡ arriving → q ≡ moved i (waits p.current) p → Step p q
  acquire :
      (i n : ℕ)
      → (p.docs i).place ≡ waits n
      → is_held p n ≡ false
      → q ≡ holding n (moved i works p)
      → Step p q
  report :
      (i : ℕ)
      → (p.docs i).place ≡ works
      → q ≡ record p { docs = put i (record (p.docs i) { reported = true }) p.docs }
      → Step p q
  hear :
      (i : ℕ)
      → (p.docs i).reported ≡ true
      → (p.docs i).watched ≡ true
      → q ≡ unwatched i p
      → Step p q
  give_back :
      (i : ℕ) (w : Worker)
      → (p.docs i).place ≡ works
      → (p.docs i).reported ≡ true
      → unlock p.worker ≡ ok w
      → q ≡ record (moved i left p) { worker = w }
      → Step p q
  give_back_fatal :
      (i : ℕ)
      → (p.docs i).place ≡ works
      → (p.docs i).reported ≡ true
      → unlock p.worker ≡ panic
      → q ≡ record p { fatal = true }
      → Step p q

abbrev pub set_restarting : ℕ → Bool → Pool → Pool
set_restarting i b p = record p {
  docs = put i (record (p.docs i) { watched = false; restarting = b }) p.docs;
}

-- The timeout of a document, wherever its goroutine is: its procedure ends Excel, and then starts
-- it again. There may be steps of other goroutines between the two.
pub data TimedOut (p q : Pool) : Type 0 where
  stop :
      (i : ℕ) (w : Worker)
      → (p.docs i).watched ≡ true
      → stop_excel p.worker ≡ ok w
      → q ≡ record (set_restarting i true p) { worker = w }
      → TimedOut p q
  stop_fatal :
      (i : ℕ)
      → (p.docs i).watched ≡ true
      → stop_excel p.worker ≡ panic
      → q ≡ record p { fatal = true }
      → TimedOut p q
  restart :
      (i : ℕ) (created : Outcome (Unit {0})) (gives : Bool) (w : Worker)
      → (p.docs i).restarting ≡ true
      → restart_excel created gives p.worker ≡ ok w
      → q ≡ restarted created w (set_restarting i false p)
      → TimedOut p q
  restart_fatal :
      (i : ℕ) (created : Outcome (Unit {0})) (gives : Bool)
      → (p.docs i).restarting ≡ true
      → restart_excel created gives p.worker ≡ panic
      → q ≡ record p { fatal = true }
      → TimedOut p q

-- Runs, which end with the process; `Calm` ones have no timeout.
pub data Reach (p : Pool) : Pool → Type 0 where
  here : Reach p p
  next : {q r : Pool} → Reach p q → q.fatal ≡ false → Step q r → Reach p r
  late : {q r : Pool} → Reach p q → q.fatal ≡ false → TimedOut q r → Reach p r

pub data Calm (p : Pool) : Pool → Type 0 where
  begin : Calm p p
  also : {q r : Pool} → Calm p q → q.fatal ≡ false → Step q r → Calm p r

-- The helper behind its start, with the documents that it will accept.
abbrev pub begun : Pool
begun = record {
  worker = record {
    has_excel = true;
    workbooks_handle = true;
    mu_held = false;
    e_worker_set = true;
  };
  current = 0;
  held = λ n. false;
  docs = λ i. record { place = arriving; reported = false; watched = true; restarting = false };
  fatal = false;
}

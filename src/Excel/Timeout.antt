-- ===== src/Excel/Timeout.antt =====
-- The branch of `excelFileCleanProcedure` in gocode/sanitizer_ole/rpc_server.go that is taken when
-- its timeout fires while the goroutine of the document works: `Quit`, `Init` and `GetWorkbooks` of
-- excelop_windows.go, and the `Unlock` that the goroutine has deferred. What `createExcelInstance`
-- comes back with is a parameter: it returns the error of `QueryInterface`, and panics where
-- `CreateObject` fails, whose error it drops. Killing the processes of Excel changes nothing of the
-- worker.
use cramc.Prelude.{◌≡◌, Bool, true, false, not, if◌then◌else◌}
use cramc.Prelude.Outcome.{GoError, Outcome, ok, err, panic, blocked, ◌>>=◌}

-- The worker, and `eWorkerSet` of the server. `mu_held` is of the mutex that the worker points to
-- now.
pub record Worker : Type 0 where
  pub has_excel : Bool
  pub workbooks_handle : Bool
  pub mu_held : Bool
  pub e_worker_set : Bool

-- `Quit`, which calls a method of the instance.
unfoldable pub quit_worker : Worker → Outcome Worker
quit_worker w =
    if w.has_excel then ok (record w { has_excel = false; workbooks_handle = false }) else panic

-- `Init`: a worker that was started has a new mutex. Its error is dropped.
unfoldable pub init_worker : Outcome (Unit {0}) → Worker → Outcome Worker
init_worker (ok u) w = ok (record w { has_excel = true; mu_held = false })
init_worker (err e) w = ok (record w { has_excel = false })
init_worker panic w = panic
init_worker blocked w = blocked

-- `GetWorkbooks`: its error is dropped, but it panics where Excel does not give the property.
unfoldable pub get_workbooks : Bool → Worker → Outcome Worker
get_workbooks gives w =
    if not w.has_excel
    then ok w
    else if gives
    then ok (record w { workbooks_handle = true })
    else panic

-- The branch `<-ctx.Done()`: up to the end of Excel, and from its next start on. What other
-- goroutines do can come between the two.
unfoldable pub stop_excel : Worker → Outcome Worker
unfolding quit_worker
stop_excel w = quit_worker (record w { e_worker_set = false })

unfoldable pub restart_excel : Outcome (Unit {0}) → Bool → Worker → Outcome Worker
unfolding init_worker get_workbooks
restart_excel created gives w = do
  w' ← init_worker created w
  w'' ← get_workbooks gives w'
  ok (record w'' { e_worker_set = true })

-- `Unlock`: it is fatal on a mutex that is not locked.
unfoldable pub unlock : Worker → Outcome Worker
unlock w = if w.mu_held then ok (record w { mu_held = false }) else panic

-- A timeout while the goroutine of a document holds the mutex. If Excel starts again before that
-- goroutine gets to its `Unlock`, this `Unlock`, as the next to touch the new mutex, ends the
-- process. If Excel has no dispatch interface, the worker is marked as ready without Excel and
-- without its handle, and one more timeout ends the process.
restart_excel-unlock :
    (w : Worker) (e : GoError)
    → w.has_excel ≡ true
    → w.mu_held ≡ true
    → ((do w' ← stop_excel w; w'' ← restart_excel (ok tt) true w'; unlock w'') ≡ panic)
      × ((do w' ← stop_excel w; w'' ← restart_excel (err e) true w'; unlock w'')
          ≡ ok (record {
            has_excel = false;
            workbooks_handle = false;
            mu_held = false;
            e_worker_set = true;
          }))
      × ((do w' ← stop_excel w; w'' ← restart_excel (err e) true w'; stop_excel w'') ≡ panic)
unfolding stop_excel restart_excel unlock
restart_excel-unlock w e h m = (simp (h, m), simp (h, m), simp (h, m))

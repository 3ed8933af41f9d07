-- ===== src/Excel/Clean/Outcomes.antt =====
-- Theorems on the goroutine of `excelFileCleanProcedure` (gocode/sanitizer_ole/rpc_server.go).
use cramc.Prelude.{
  append-nil, refl, ◌≡◌, refl, ◌≢◌, true, false, Option, none, some, List, [], ◌∷◌, ◌++◌, map,
  append-nil, Bytes, codes,
}
use cramc.Prelude.Outcome.{GoError, Outcome, ok, err, panic, blocked}
use cramc.Excel.Com.{Excel, IsExcel}
use cramc.Excel.Sanitize.{sanitize_workbook, sanitize_open}
use cramc.Excel.Sanitize.Remediate.{remediated, sanitize_open-remediate}
use cramc.Excel.Clean.{CleanEnv, Cleaner, clean_file, logged}

-- A worker that is free and has its handle.
pub record IsReady {x : Excel} (c : Cleaner x) : Type 0 where
  pub not_locked : c.locked ≡ false
  pub handle : c.workbooks_handle ≡ true

-- What is sent on `errC` for the outcome of sanitizing.
abbrev pub report : Outcome (Unit {0}) → List (Option GoError)
report (ok u) = none ∷ []
report (err e) = some e ∷ []
report _ = []

abbrev pub ending : Outcome (Unit {0}) → Outcome (Unit {0})
ending panic = panic
ending _ = ok tt

-- A document that Excel opens and that is sanitized without waiting is closed, its workbook saved
-- as sanitizing left it, its file renamed, the mutex released and the outcome reported, and all of
-- it also where sanitizing failed or panicked; the errors of saving and of renaming are dropped.
pub clean_file-report :
    (x : Excel) (env : CleanEnv x) (op dest f_path : Bytes) (c : Cleaner x) (w w' : x.Workbook)
    (r : Outcome (Unit {0}))
    → IsReady c
    → env.open_file c.renamed f_path ≡ ok w
    → sanitize_open x op dest w ≡ (r, w')
    → r ≢ blocked
    → clean_file x env op dest f_path c ≡ (
      ending r,
      record {
        locked = false;
        workbooks_handle = true;
        current_workbook = none;
        cur_file_path = f_path;
        saved = c.saved ++ logged x env (env.save_error f_path) (f_path, w');
        renamed = c.renamed ++ logged x env (env.rename_error f_path) f_path;
        err_c = c.err_c ++ report r;
      },
    )
unfolding clean_file sanitize_workbook
clean_file-report x env op dest f_path c w w' (ok u) ready o s n =
    simp (ready.not_locked, ready.handle, o, s)
clean_file-report x env op dest f_path c w w' (err e) ready o s n =
    simp (ready.not_locked, ready.handle, o, s)
clean_file-report x env op dest f_path c w w' panic ready o s n =
    simp (ready.not_locked, ready.handle, o, s, append-nil c.err_c)
clean_file-report x env op dest f_path c w w' blocked ready o s n = absurd (n refl)

-- If sanitizing by "remediate" returns without an error for a document that opens and can be saved,
-- then nil is reported, and what is saved under its path is the workbook with each module of the
-- name replaced by the placeholder and every other one as it was.
pub clean_file-remediated :
    (x : Excel) (laws : IsExcel x) (env : CleanEnv x) (dest f_path : Bytes) (c : Cleaner x)
    (w w' : x.Workbook)
    → IsReady c
    → env.open_file c.renamed f_path ≡ ok w
    → env.save_error f_path ≡ none
    → sanitize_open x (codes "remediate") dest w ≡ (ok tt, w')
    → ((clean_file x env (codes "remediate") dest f_path c).1.saved ≡ c.saved ++ (f_path, w') ∷ [])
      × ((clean_file x env (codes "remediate") dest f_path c).1.err_c ≡ c.err_c ++ none ∷ [])
      × (laws.components w' ≡ map (remediated dest) (laws.components w))
clean_file-remediated x laws env dest f_path c w w' ready o saves s =
    let e =
      clean_file-report x env (codes "remediate") dest f_path c w w' (ok tt) ready o s (λ b. cc) in
    (rw e (rw saves), rw e, sanitize_open-remediate x laws dest w w' s)

-- A document that Excel does not open is left alone: nothing is saved or renamed, the error is
-- reported, and the mutex is released.
clean_file_unopened :
    (x : Excel) (env : CleanEnv x) (op dest f_path : Bytes) (c : Cleaner x) (e : GoError)
    → IsReady c
    → env.open_file c.renamed f_path ≡ err e
    → clean_file x env op dest f_path c ≡ (ok tt, record c { err_c = c.err_c ++ some e ∷ [] })
unfolding clean_file
clean_file_unopened x env op dest f_path c e ready o = simp (ready.not_locked, ready.handle, o)

-- ===== src/Excel/Clean.antt =====
-- What the privileged helper does with a queued document: the goroutine of
-- `excelFileCleanProcedure` in gocode/sanitizer_ole/rpc_server.go, with `OpenWorkbook` and
-- `SaveAndCloseWorkbook` of excelop_windows.go and `renameFileAndSave` of filebak_windows.go, when
-- its timeout does not fire. The properties that are set on opening are in Excel/Opened.
pub mod Outcomes
use cramc.Prelude.{
  ℕ, zero, suc, ◌+◌, ◌-◌, ◌*◌, ◌/◌, ◌%◌, ◌^◌, ◌≤◌, ◌<◌, String, ◌≡◌, refl, sym, ap, ◌∙◌, ◌≢◌, ◌↔◌,
  ◌⊎◌, inl, inr, Bool, true, false, not, ◌&&◌, ◌||◌, Option, none, some, List, [], ◌∷◌, ◌++◌, map,
  append-nil, append_assoc, arith, ltb, leb, ◌==◌, if◌then◌else◌, Bool-cases, Option-cases, length,
  take, drop, replicate, any, All, length-append, length-drop, take-append, drop-append, length-map,
  get_elem?, set, erase_at, get_elem?-append, set-append, erase_at-append, get_elem?-length, Bytes,
  codes, text_eq, text_eq_iff, text_eq_refl, text_eq-append, text_ne,
}
use cramc.Prelude.Outcome.{
  GoError, Outcome, ok, err, panic, blocked, ◌>>=◌, ◌>>◌, excel_workbooks_unable_2_fetch,
  excel_current_workbook_null_ptr,
}
use cramc.Excel.Com.{Excel}
use cramc.Excel.Sanitize.{sanitize_workbook}

-- The calls of Excel and of the operating system: opening a file when the files of
-- some paths were renamed before, the error of `Save` on the file
-- of a path, which is dropped, and the error of `os.Rename`.
pub record CleanEnv (x : Excel) : Type 0 where
  pub open_file : List Bytes → Bytes → Outcome x.Workbook
  pub save_error : Bytes → Option GoError
  pub rename_error : Bytes → Option GoError

-- The worker with its mutex, what was saved and renamed, and what was sent on `errC`, where `none`
-- is nil.
pub record Cleaner (x : Excel) : Type 0 where
  pub locked : Bool
  pub workbooks_handle : Bool
  pub current_workbook : Option x.Workbook
  pub cur_file_path : Bytes
  pub saved : List (Bytes × x.Workbook)
  pub renamed : List Bytes
  pub err_c : List (Option GoError)

module _ (x : Excel) (env : CleanEnv x) where
  abbrev pub Cleaned : Type 0
  Cleaned = Outcome (Unit {0}) × Cleaner x

  abbrev pub opened : Bytes → Outcome x.Workbook → Cleaner x → Cleaned
  opened f_path (ok w) c = (ok tt, record c { current_workbook = some w; cur_file_path = f_path })
  opened f_path (err e) c = (err e, c)
  opened f_path panic c = (panic, c)
  opened f_path blocked c = (blocked, c)

  -- `OpenWorkbook`
  unfoldable pub open_workbook : Bytes → Cleaner x → Cleaned
  open_workbook f_path c =
      if not c.workbooks_handle
      then (err excel_workbooks_unable_2_fetch, c)
      else opened f_path (env.open_file c.renamed f_path) c

  abbrev pub logged : {A : Type 0} → Option GoError → A → List A
  logged none a = a ∷ []
  logged (some e) a = []

  abbrev closed : Option x.Workbook → Cleaner x → Cleaned
  closed none c = (err excel_current_workbook_null_ptr, c)
  closed (some w) c = (
    ok tt,
    record c {
      saved = c.saved ++ logged (env.save_error c.cur_file_path) (c.cur_file_path, w);
      current_workbook = none;
    },
  )

  -- `SaveAndCloseWorkbook`
  unfoldable pub save_and_close_workbook : Cleaner x → Cleaned
  save_and_close_workbook c = closed c.current_workbook c

  -- The deferred calls behind an opened workbook: their errors are only logged.
  unfoldable pub finishing : Bytes → Cleaner x → Cleaner x
  unfolding save_and_close_workbook
  finishing f_path c =
      let c' = (save_and_close_workbook c).1 in
      record c' { renamed = c'.renamed ++ logged (env.rename_error f_path) f_path; locked = false }

  abbrev pub reported : Option GoError → Cleaner x → Cleaner x
  reported e c = record c { err_c = c.err_c ++ e ∷ [] }

  abbrev sanitized : Bytes → Outcome (Unit {0}) × Option x.Workbook → Cleaner x → Cleaned
  sanitized f_path (ok u, w) c =
      (ok tt, finishing f_path (reported none (record c { current_workbook = w })))
  sanitized f_path (err e, w) c =
      (ok tt, finishing f_path (reported (some e) (record c { current_workbook = w })))
  sanitized f_path (panic, w) c = (panic, finishing f_path (record c { current_workbook = w }))
  sanitized f_path (blocked, w) c = (blocked, record c { current_workbook = w })

  abbrev pub after_open : Bytes → Bytes → Bytes → Cleaned → Cleaned
  after_open op dest f_path (ok u, c) =
      sanitized f_path (sanitize_workbook x op dest c.current_workbook) c
  after_open op dest f_path (err e, c) = (ok tt, record (reported (some e) c) { locked = false })
  after_open op dest f_path (panic, c) = (panic, record c { locked = false })
  after_open op dest f_path (blocked, c) = (blocked, c)

  -- The goroutine, which waits while another one holds the mutex.
  unfoldable pub clean_file : Bytes → Bytes → Bytes → Cleaner x → Cleaned
  unfolding open_workbook finishing
  clean_file op dest f_path c =
      if c.locked
      then (blocked, c)
      else after_open op dest f_path (open_workbook f_path (record c { locked = true }))

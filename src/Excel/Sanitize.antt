-- ===== src/Excel/Sanitize.antt =====
-- gocode/sanitizer_ole/excelop_windows.go: `SanitizeWorkbook`.
pub mod Remediate
pub mod Remove
pub mod Total
use cramc.Prelude.{
  ℕ, zero, suc, ◌+◌, Option, none, some, List, [], ◌∷◌, if◌then◌else◌, length, Bytes, codes,
  text_eq,
}
use cramc.Prelude.Outcome.{
  GoError, Outcome, ok, err, panic, blocked, unknown_internal_error, excel_no_macro_found,
  excel_current_workbook_null_ptr,
}
use cramc.Excel.Com.{Component, Excel}

-- The text that replaces a module's code, by lines.
abbrev pub cleanup_comment : List Bytes
cleanup_comment =
    codes "' Sanitized by CRAMC"
    ∷ codes "Private Sub CRAMCPlaceholder()"
    ∷ codes "    ' This ensures the comment above persists"
    ∷ codes "End Sub"
    ∷ []

module _ (x : Excel) where
  open x use {
    Workbook, has_vb_project, vb_project, count, item, delete_lines, add_from_string, remove,
  }

  abbrev pub Sanitized : Type 0
  Sanitized = Outcome (Unit {0}) × Workbook

  abbrev pub called : Option GoError × Workbook → (Workbook → Sanitized) → Sanitized
  called (none, w) next = next w
  called (some e, w) next = (err e, w)

  abbrev done : Workbook → Sanitized
  done w = (ok tt, w)

  -- The `switch` on the operation, at the component number `i`.
  unfoldable pub apply_op : Bytes → ℕ → Component → Workbook → Sanitized
  apply_op op i c w =
      if text_eq op (codes "remediate")
      then called (delete_lines i (length c.code) w)
          (λ w'. called (add_from_string i cleanup_comment w') done)
      else if text_eq op (codes "rm_module")
      then called (remove i w) done
      else (err unknown_internal_error, w)

  abbrev pub visited : Bytes → Bytes → ℕ → Option Component → Workbook → Sanitized
  visited op dest i none w = (panic, w)
  visited op dest i (some c) w = if text_eq c.name dest then apply_op op i c w else (ok tt, w)

  abbrev pub go_on : Sanitized → (Workbook → Sanitized) → Sanitized
  go_on (ok u, w) next = next w
  go_on (err e, w) next = (err e, w)
  go_on (panic, w) next = (panic, w)
  go_on (blocked, w) next = (blocked, w)

  -- The loop, from number `i` on for `left` rounds.
  unfoldable pub sanitize_from : Bytes → Bytes → ℕ → ℕ → Workbook → Sanitized
  sanitize_from op dest zero i w = (ok tt, w)
  sanitize_from op dest (suc left) i w =
      go_on (visited op dest i (item w i) w) (λ w'. sanitize_from op dest left (i + 1) w')

  abbrev pub with_project : Bytes → Bytes → Option GoError → Workbook → Sanitized
  with_project op dest none w = sanitize_from op dest (count w) 1 w
  with_project op dest (some e) w = (err e, w)

  -- On an open workbook.
  unfoldable pub sanitize_open : Bytes → Bytes → Workbook → Sanitized
  sanitize_open op dest w =
      if has_vb_project w
      then with_project op dest (vb_project w) w
      else (err excel_no_macro_found, w)

  abbrev kept : Sanitized → Outcome (Unit {0}) × Option Workbook
  kept (r, w) = (r, some w)

  -- `SanitizeWorkbook`: `none` is a worker with no current workbook.
  unfoldable pub sanitize_workbook :
      Bytes → Bytes → Option Workbook → Outcome (Unit {0}) × Option Workbook
  unfolding sanitize_open
  sanitize_workbook op dest none = (err excel_current_workbook_null_ptr, none)
  sanitize_workbook op dest (some w) = kept (sanitize_open op dest w)

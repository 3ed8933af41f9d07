-- ===== src/Excel/Sanitize/Total.antt =====
-- Theorems on `SanitizeWorkbook` (gocode/sanitizer_ole/excelop_windows.go): "remediate" comes back.
use cramc.Prelude.{
  ℕ, suc, ◌+◌, ◌≡◌, refl, sym, ◌∙◌, inl, inr, Option, none, some, List, [], ◌∷◌, ◌++◌, append_assoc,
  arith, Bool-cases, Option-cases, length, length-append, Bytes, codes, text_eq, text_eq_refl,
}
use cramc.Prelude.Outcome.{GoError, Outcome, ok, err, panic, blocked}
use cramc.Excel.Com.{Component, Excel, IsExcel}
use cramc.Excel.Sanitize.{
  cleanup_comment, called, apply_op, visited, go_on, sanitize_from, sanitize_open,
  sanitize_workbook,
}
use cramc.Excel.Sanitize.Remediate.{remediated, at_component, visited-remediate}

-- A call that returns a value or an error.
abbrev pub Returns {ℓ} : {A : Type ℓ} → Outcome A → Type 0
Returns (ok a) = Unit
Returns (err e) = Unit
Returns panic = ⊥
Returns blocked = ⊥

module _ (x : Excel) (laws : IsExcel x) (dest : Bytes) where
  open x use {Workbook, delete_lines, add_from_string}
  open laws use {components, count_is, item_is}

  called-Returns :
      (r : Option GoError × Workbook) (next : Workbook → Outcome (Unit {0}) × Workbook)
      → ((w : Workbook) → Returns (next w).0)
      → Returns (called x r next).0
  called-Returns (none, w) next k = k w
  called-Returns (some e, w) next k = tt

  go_on-Returns :
      (r : Outcome (Unit {0}) × Workbook) (next : Workbook → Outcome (Unit {0}) × Workbook)
      → Returns r.0
      → ((w : Workbook) → r ≡ (ok tt, w) → Returns (next w).0)
      → Returns (go_on x r next).0
  go_on-Returns (ok u, w) next k h = h w refl
  go_on-Returns (err e, w) next k h = tt
  go_on-Returns (panic, w) next k h = k
  go_on-Returns (blocked, w) next k h = k

  visited-Returns :
      (i : ℕ) (c : Component) (w : Workbook)
      → Returns (visited x (codes "remediate") dest i (some c) w).0
  unfolding apply_op
  visited-Returns i c w = elim (Bool-cases (text_eq c.name dest)) [
    | inl t ↦ rw t (
        rw (text_eq_refl (codes "remediate")) (
          called-Returns (delete_lines i (length c.code) w) _
            (λ w1. called-Returns (add_from_string i cleanup_comment w1) _ (λ w2. tt))))
    | inr f ↦ rw f tt
  ]

  sanitize_from-Returns :
      (todo before : List Component) (w : Workbook) (i : ℕ)
      → components w ≡ before ++ todo
      → i ≡ suc (length before)
      → Returns (sanitize_from x (codes "remediate") dest (length todo) i w).0
  unfolding sanitize_from
  sanitize_from-Returns [] before w i e n = tt
  sanitize_from-Returns (c ∷ todo) before w i e n =
      let here : x.item w i ≡ some c =
        rw n (item_is w (length before) ∙ at_component x laws dest before todo c w e) in
      go_on-Returns (visited x (codes "remediate") dest i (x.item w i) w) _
        (rw here (visited-Returns i c w))
        (λ w1 v.
          let d = remediated dest c in
          let e1 = visited-remediate x laws dest before todo c w w1 e (rw n at (rw here at v)) in
          sanitize_from-Returns todo (before ++ d ∷ []) w1 (i + 1)
            (e1 ∙ sym (append_assoc before (d ∷ []) todo))
            (omega (arith, n, length-append {0} before (d ∷ []))))

  -- "remediate" comes back with nothing or an error, whatever workbook is open.
  pub sanitize_workbook-Returns :
      (w : Option Workbook) → Returns (sanitize_workbook x (codes "remediate") dest w).0
  unfolding sanitize_workbook sanitize_open
  sanitize_workbook-Returns none = tt
  sanitize_workbook-Returns (some w) = elim (Bool-cases (x.has_vb_project w)) [
    | inl t ↦ elim (Option-cases (x.vb_project w)) [
      | inl n ↦
          rw t (
            rw n (rw (count_is w) (sanitize_from-Returns (components w) [] w 1 refl (omega arith))))
      | inr (e, s) ↦ rw t (rw s tt)
    ]
    | inr f ↦ rw f tt
  ]

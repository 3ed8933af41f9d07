-- ===== src/Excel/Sanitize/Remediate.antt =====
-- Theorems on `SanitizeWorkbook` (gocode/sanitizer_ole/excelop_windows.go): "remediate".
use cramc.Prelude.{
  ℕ, suc, ◌+◌, ◌≡◌, refl, sym, ap, ◌∙◌, inl, inr, Option, none, some, List, [], ◌∷◌, ◌++◌, map,
  append_assoc, arith, if◌then◌else◌, Bool-cases, Option-cases, length, length-append, get_elem?,
  get_elem?-append, set-append, Bytes, codes, text_eq, text_eq_refl,
}
use cramc.Prelude.Outcome.{GoError, Outcome, ok, err, panic, blocked}
use cramc.Excel.Com.{Component, Excel, IsExcel}
use cramc.Excel.Sanitize.{
  cleanup_comment, called, apply_op, visited, go_on, sanitize_from, sanitize_open,
}

-- What is to become of a module.
abbrev pub remediated : Bytes → Component → Component
remediated dest c =
    if text_eq c.name dest then record { name = c.name; code = cleanup_comment } else c

module _ (x : Excel) (laws : IsExcel x) (dest : Bytes) where
  open x use {Workbook, delete_lines, add_from_string}
  open laws use {components, count_is, item_is, deleted, added}

  called-ok :
      (r : Option GoError × Workbook) (next : Workbook → Outcome (Unit {0}) × Workbook)
      {w' : Workbook}
      → called x r next ≡ (ok tt, w')
      → (w : Workbook) × (r ≡ (none, w)) × (next w ≡ (ok tt, w'))
  called-ok (none, w) next e = (w, refl, e)
  called-ok (some g, w) next e = cc

  go_on-ok :
      (r : Outcome (Unit {0}) × Workbook) (next : Workbook → Outcome (Unit {0}) × Workbook)
      {w' : Workbook}
      → go_on x r next ≡ (ok tt, w')
      → (w : Workbook) × (r ≡ (ok tt, w)) × (next w ≡ (ok tt, w'))
  go_on-ok (ok u, w) next e = (w, refl, e)
  go_on-ok (err g, w) next e = cc
  go_on-ok (panic, w) next e = cc
  go_on-ok (blocked, w) next e = cc

  pub at_component :
      (before after : List Component) (c : Component) (w : Workbook)
      → components w ≡ before ++ c ∷ after
      → get_elem? (components w) (length before) ≡ some c
  at_component before after c w e = rw e (get_elem?-append before (c ∷ after))

  blanked :
      (before after : List Component) (c : Component) (w w1 w2 : Workbook)
      → components w ≡ before ++ c ∷ after
      → delete_lines (suc (length before)) (length c.code) w ≡ (none, w1)
      → add_from_string (suc (length before)) cleanup_comment w1 ≡ (none, w2)
      → components w2 ≡ before ++ record { name = c.name; code = cleanup_comment } ∷ after
  blanked before after c w w1 w2 e d a =
      let empty : Component = record { name = c.name; code = [] } in
      let e1 : components w1 ≡ before ++ empty ∷ after =
        deleted w w1 (length before) c (at_component before after c w e) d
        ∙ rw e (set-append before after c empty) in
      added w1 w2 (length before) empty cleanup_comment (at_component before after empty w1 e1) refl
        a
      ∙ rw e1 (set-append before after empty (record { name = c.name; code = cleanup_comment }))

  apply_op-remediate :
      (before after : List Component) (c : Component) (w w' : Workbook)
      → components w ≡ before ++ c ∷ after
      → apply_op x (codes "remediate") (suc (length before)) c w ≡ (ok tt, w')
      → components w' ≡ before ++ record { name = c.name; code = cleanup_comment } ∷ after
  unfolding apply_op
  apply_op-remediate before after c w w' e h =
      let k = suc (length before) in
      let (w1, d, r) =
        called-ok (delete_lines k (length c.code) w)
          (λ v. called x (add_from_string k cleanup_comment v) (λ u. (ok tt, u)))
          (rw (text_eq_refl (codes "remediate")) at h) in
      let (w2, a, l) = called-ok (add_from_string k cleanup_comment w1) (λ u. (ok tt, u)) r in
      rw (← (ap (λ (p : Outcome (Unit {0}) × Workbook). p.1) l))
        (blanked before after c w w1 w2 e d a)

  pub visited-remediate :
      (before after : List Component) (c : Component) (w w' : Workbook)
      → components w ≡ before ++ c ∷ after
      → visited x (codes "remediate") dest (suc (length before)) (some c) w ≡ (ok tt, w')
      → components w' ≡ before ++ remediated dest c ∷ after
  visited-remediate before after c w w' e h = elim (Bool-cases (text_eq c.name dest)) [
    | inl t ↦ rw t (apply_op-remediate before after c w w' e (rw t at h))
    | inr f ↦ rw f (rw (← (ap (λ (p : Outcome (Unit {0}) × Workbook). p.1) (rw f at h))) e)
  ]

  sanitize_from-remediate :
      (todo before : List Component) (w w' : Workbook) (i : ℕ)
      → components w ≡ before ++ todo
      → i ≡ suc (length before)
      → sanitize_from x (codes "remediate") dest (length todo) i w ≡ (ok tt, w')
      → components w' ≡ before ++ map (remediated dest) todo
  unfolding sanitize_from
  sanitize_from-remediate [] before w w' i e n h =
      rw (← (ap (λ (p : Outcome (Unit {0}) × Workbook). p.1) h)) e
  sanitize_from-remediate (c ∷ todo) before w w' i e n h =
      let here : x.item w (suc (length before)) ≡ some c =
        item_is w (length before) ∙ at_component before todo c w e in
      let (w1, v, rest) =
        go_on-ok (visited x (codes "remediate") dest i (x.item w i) w)
          (λ u. sanitize_from x (codes "remediate") dest (length todo) (i + 1) u) h in
      let e1 = visited-remediate before todo c w w1 e (rw here at (rw n at v)) in
      let d = remediated dest c in
      sanitize_from-remediate todo (before ++ d ∷ []) w1 w' (i + 1)
        (e1 ∙ sym (append_assoc before (d ∷ []) (todo)))
        (omega (arith, n, length-append {0} before (d ∷ []))) rest
      ∙ append_assoc before (d ∷ []) (map (remediated dest) todo)

-- If "remediate" returns without an error on a workbook, then each module of the given name holds
-- the placeholder and nothing else, every other module is as it was, and none is gone or moved.
pub sanitize_open-remediate :
    (x : Excel) (laws : IsExcel x) (dest : Bytes) (w w' : x.Workbook)
    → sanitize_open x (codes "remediate") dest w ≡ (ok tt, w')
    → laws.components w' ≡ map (remediated dest) (laws.components w)
unfolding sanitize_open
sanitize_open-remediate x laws dest w w' h = elim (Bool-cases (x.has_vb_project w)) [
  | inl t ↦ elim (Option-cases (x.vb_project w)) [
    | inl n ↦
        sanitize_from-remediate x laws dest (laws.components w) [] w w' 1 refl (omega arith)
          (rw (laws.count_is w) at (rw n at (rw t at h)))
    | inr (e, s) ↦ ground arith
  ]
  | inr f ↦ ground arith
]

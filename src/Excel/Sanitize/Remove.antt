-- ===== src/Excel/Sanitize/Remove.antt =====
-- Theorems on `SanitizeWorkbook` (gocode/sanitizer_ole/excelop_windows.go): "rm_module", and
-- workbooks with no module of the name.
use mathlib.Core.Path.{subst}
use native.Mathlib.Nat.{zero-add, suc-add}
use cramc.Prelude.{
  ℕ, suc, ◌+◌, ◌≡◌, refl, sym, ◌∙◌, Bool, true, false, none, some, List, [], ◌∷◌, ◌++◌, append-nil,
  append_assoc, arith, if◌then◌else◌, length, All, length-append, get_elem?, get_elem?-append,
  erase_at-append, get_elem?-length, Bytes, codes, text_eq,
}
use cramc.Prelude.Outcome.{ok, panic}
use cramc.Excel.Com.{Component, Excel, IsExcel}
use cramc.Excel.Sanitize.{apply_op, sanitize_from, sanitize_open}

abbrev pub Unmatched : Bytes → List Component → Type 0
Unmatched dest = All (λ c. text_eq c.name dest ≡ false)

abbrev pub is_nil : List Component → Bool
is_nil [] = true
is_nil (c ∷ cs) = false

module _ (x : Excel) (laws : IsExcel x) (op dest : Bytes) where
  open x use {Workbook, item}
  open laws use {components, count_is, item_is, removed}

  item_at :
      (before after : List Component) (w : Workbook)
      → components w ≡ before ++ after
      → item w (suc (length before)) ≡ get_elem? after 0
  item_at before after w e = item_is w (length before) ∙ rw e (get_elem?-append before after)

  -- Modules of other names are passed over.
  skip :
      (todo before rest : List Component) (w : Workbook) (left i : ℕ)
      → components w ≡ before ++ (todo ++ rest)
      → i ≡ suc (length before)
      → Unmatched dest todo
      → sanitize_from x op dest (length todo + left) i w
        ≡ sanitize_from x op dest left (suc (length (before ++ todo))) w
  unfolding sanitize_from
  skip [] before rest w left i e n u = rw n (rw append-nil (rw zero-add))
  skip (c ∷ todo) before rest w left i e n u =
      let here : item w (suc (length before)) ≡ some c = item_at before (c ∷ (todo ++ rest)) w e in
      rw n (
        rw (suc-add, here, sanitize_from)
          (rw u.0 (
            skip todo (before ++ c ∷ []) rest w left (suc (length before) + 1)
              (e ∙ sym (append_assoc before (c ∷ []) (todo ++ rest)))
              (omega (arith, length-append {0} before (c ∷ []))) u.1
            ∙ rw (append_assoc before (c ∷ []) todo))))

  -- The loop from the start, behind modules of other names.
  from_start :
      (before rest : List Component) (w : Workbook)
      → components w ≡ before ++ rest
      → x.has_vb_project w ≡ true
      → x.vb_project w ≡ none
      → Unmatched dest before
      → sanitize_open x op dest w ≡ sanitize_from x op dest (length rest) (suc (length before)) w
  unfolding sanitize_open
  from_start before rest w e t n u = rw t (
      rw n (
        rw (count_is w) (
          rw e (
            rw (length-append before rest)
              (skip before [] rest w (length rest) 1 e (omega arith) u)))))

-- Where no module has the name, every operation, also an unknown one, leaves the workbook alone
-- and returns no error.
sanitize_open-Unmatched :
    (x : Excel) (laws : IsExcel x) (op dest : Bytes) (w : x.Workbook)
    → x.has_vb_project w ≡ true
    → x.vb_project w ≡ none
    → Unmatched dest (laws.components w)
    → sanitize_open x op dest w ≡ (ok tt, w)
unfolding sanitize_from
sanitize_open-Unmatched x laws op dest w t n u =
    from_start x laws op dest (laws.components w) [] w (sym (append-nil (laws.components w))) t n u

module _ (x : Excel) (laws : IsExcel x) (dest : Bytes) where
  open x use {Workbook, item}
  open laws use {components, count_is, item_is, removed}

  -- The round that removes the module.
  removing :
      (before after : List Component) (c : Component) (w w1 : Workbook)
      → components w ≡ before ++ c ∷ after
      → text_eq c.name dest ≡ true
      → x.remove (suc (length before)) w ≡ (none, w1)
      → sanitize_from x (codes "rm_module") dest (suc (length after)) (suc (length before)) w
        ≡ sanitize_from x (codes "rm_module") dest (length after) (suc (length before) + 1) w1
  unfolding sanitize_from apply_op
  removing before after c w w1 e t r =
      let here = item_at x laws (codes "rm_module") dest before (c ∷ after) w e in
      rw (here, sanitize_from) (rw t (unfold text_eq in rw r))

  outside :
      (w1 : Workbook) (all : List Component)
      → components w1 ≡ all
      → sanitize_from x (codes "rm_module") dest 1 (suc (length all)) w1 ≡ (panic, w1)
  unfolding sanitize_from
  outside w1 all e =
      let gone : item w1 (suc (length all)) ≡ none =
        item_is w1 (length all) ∙ rw e (get_elem?-length all) in
      rw (gone, sanitize_from)

  -- The rounds behind it: one module is left out, and the last number is outside.
  behind :
      (before after : List Component) (w1 : Workbook)
      → components w1 ≡ before ++ after
      → Unmatched dest after
      → sanitize_from x (codes "rm_module") dest (length after) (suc (length before) + 1) w1
        ≡ (if is_nil after then ok tt else panic, w1)
  unfolding sanitize_from
  behind before [] w1 e u = refl
  behind before (a ∷ after) w1 e u =
      let op = codes "rm_module" in
      let all = (before ++ a ∷ []) ++ after in
      let whole : components w1 ≡ all = e ∙ sym (append_assoc before (a ∷ []) after) in
      let rounds : length after + 1 ≡ suc (length after) = omega arith in
      subst (λ k. sanitize_from x op dest k (suc (length before) + 1) w1 ≡ (panic, w1)) rounds
        (skip x laws op dest after (before ++ a ∷ []) [] w1 1 (suc (length before) + 1)
            (whole ∙ rw append-nil) (omega (arith, length-append {0} before (a ∷ []))) u.1
          ∙ outside w1 all whole)

-- "rm_module" on a workbook with one module of the name, which Excel removes: the module is gone
-- and the others are left, but unless it was the last one the loop, which counted the modules
-- before, asks for a number that is no longer there, and panics.
pub sanitize_open-rm_module :
    (x : Excel) (laws : IsExcel x) (dest : Bytes) (before after : List Component) (c : Component)
    (w w1 : x.Workbook)
    → x.has_vb_project w ≡ true
    → x.vb_project w ≡ none
    → laws.components w ≡ before ++ c ∷ after
    → Unmatched dest before
    → text_eq c.name dest ≡ true
    → Unmatched dest after
    → x.remove (suc (length before)) w ≡ (none, w1)
    → (sanitize_open x (codes "rm_module") dest w ≡ (if is_nil after then ok tt else panic, w1))
      × (laws.components w1 ≡ before ++ after)
sanitize_open-rm_module x laws dest before after c w w1 t n e ub m ua r =
    let left : laws.components w1 ≡ before ++ after =
      laws.removed w w1 (length before) r ∙ rw e (erase_at-append before after c) in
    (
      from_start x laws (codes "rm_module") dest before (c ∷ after) w e t n ub
          ∙ removing x laws dest before after c w w1 e m r
          ∙ behind x laws dest before after w1 left ua,
      left,
    )

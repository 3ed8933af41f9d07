-- ===== src/Excel/Opened.antt =====
-- `OpenWorkbook` in gocode/sanitizer_ole/excelop_windows.go behind the call that opens a workbook:
-- the properties of the workbook and of Excel that it sets, where each error is only logged. A
-- Boolean is 0 or 1, and a negative constant stands as its 32 bits.
use mathlib.Core.List.{Memᴰ}
use cramc.Prelude.{
  ℕ, ◌-◌, ◌^◌, ◌≡◌, refl, ap, ◌∙◌, false, Option, none, some, List, [], ◌∷◌, Bytes, arith, codes,
  text_eq, text_eq_refl,
}
use cramc.Prelude.Outcome.{GoError}
use cramc.Excel.Config.{Properties, with_property, put_or_log}

-- The constants XlUpdateLinksNever and XlCalculationManual of apicall_specific_windows.go.
abbrev pub xl_update_links_never : ℕ
xl_update_links_never = 2

abbrev pub xl_calculation_manual : ℕ
xl_calculation_manual = 2 ^ 32 - 4135

-- What is set, in the order of the code.
abbrev pub workbook_settings : List (Bytes × ℕ)
workbook_settings =
    (codes "ForceFullCalculation", 0)
    ∷ (codes "UpdateLinks", xl_update_links_never)
    ∷ (codes "UpdateRemoteReferences", 0)
    ∷ (codes "DoNotPromptForConvert", 0)
    ∷ (codes "CheckCompatibility", 0)
    ∷ []

abbrev pub application_settings : List (Bytes × ℕ)
application_settings =
    (codes "Calculation", xl_calculation_manual) ∷ (codes "CalculateBeforeSave", 0) ∷ []

module _ (put_error : Bytes → Option GoError) where
  -- One `PutProperty` after the other.
  unfoldable pub put_settings : List (Bytes × ℕ) → Properties → Properties
  put_settings [] p = p
  put_settings ((name, value) ∷ more) p =
      put_settings more (put_or_log (put_error name) name value p)

  -- Each name with a value, once, and not the name of `q`.
  abbrev Misses : Bytes → List (Bytes × ℕ) → Type 0
  Misses q [] = Unit
  Misses q ((name, value) ∷ more) = (text_eq q name ≡ false) × Misses q more

  abbrev Distinct : List (Bytes × ℕ) → Type 0
  Distinct [] = Unit
  Distinct ((name, value) ∷ more) = Misses name more × Distinct more

  put_or_log_other :
      (e : Option GoError) (q name : Bytes) (value : ℕ) (p : Properties)
      → text_eq q name ≡ false
      → put_or_log e name value p q ≡ p q
  unfolding with_property
  put_or_log_other none q name value p n = rw n
  put_or_log_other (some e) q name value p n = refl

  put_or_log_same :
      (e : Option GoError) (name : Bytes) (value : ℕ) (p : Properties)
      → e ≡ none
      → put_or_log e name value p name ≡ some value
  unfolding with_property
  put_or_log_same none name value p n = rw (text_eq_refl name)
  put_or_log_same (some e) name value p n = cc

  put_settings-Misses :
      (settings : List (Bytes × ℕ)) (q : Bytes) (p : Properties)
      → Misses q settings
      → put_settings settings p q ≡ p q
  unfolding put_settings
  put_settings-Misses [] q p m = refl
  put_settings-Misses ((name, value) ∷ more) q p (n, m) =
      put_settings-Misses more q _ m ∙ put_or_log_other (put_error name) q name value p n

  -- A setting that is not refused is in force behind all of them, whichever of the others are
  -- refused.
  put_settings-mem :
      (settings : List (Bytes × ℕ)) (q : Bytes) (v : ℕ) (p : Properties)
      → Distinct settings
      → Memᴰ (q, v) settings
      → put_error q ≡ none
      → put_settings settings p q ≡ some v
  unfolding put_settings
  put_settings-mem [] q v p d m takes = elim m [ ]
  put_settings-mem ((name, value) ∷ more) q v p (n, d) (Memᴰ.head e) takes =
      let same : q ≡ name = ap (λ (h : Bytes × ℕ). h.0) e in
      let value_same : v ≡ value = ap (λ (h : Bytes × ℕ). h.1) e in
      rw same (
        rw value_same (
          put_settings-Misses more name _ n
          ∙ put_or_log_same (put_error name) name value p (rw same at takes)))
  put_settings-mem ((name, value) ∷ more) q v p (n, d) (Memᴰ.tail m) takes =
      put_settings-mem more q v _ d m takes

workbook_settings-Distinct :
    (put_error : Bytes → Option GoError) → Distinct put_error workbook_settings
unfolding text_eq
workbook_settings-Distinct put_error = ground arith

-- Whatever else an opened workbook refuses, its links are not updated, unless it refuses just that.
workbook_settings-links :
    (put_error : Bytes → Option GoError) (p : Properties)
    → put_error (codes "UpdateLinks") ≡ none
    → put_settings put_error workbook_settings p (codes "UpdateLinks") ≡ some xl_update_links_never
workbook_settings-links put_error p takes =
    put_settings-mem put_error workbook_settings (codes "UpdateLinks") xl_update_links_never p
      (workbook_settings-Distinct put_error) (Memᴰ.tail (Memᴰ.head refl)) takes

-- ===== src/Excel/Config.antt =====
-- gocode/sanitizer_ole/excelop_windows.go: `createExcelInstance`, `excelInstanceStartupConfig` and
-- `Init` of the worker, as far as the properties of the Excel application go. A Boolean property is
-- 0 or 1. What an application is created with, and which properties it takes, are parameters.
use cramc.Prelude.{
  ℕ, ◌≡◌, refl, ◌∙◌, ◌⊎◌, inl, inr, Bool, false, Option, none, some, if◌then◌else◌, Option-cases,
  Bytes, codes, text_eq, text_eq_refl,
}
use cramc.Prelude.Outcome.{GoError, Outcome, ok, err, panic, ◌>>=◌}

abbrev pub Properties : Type 0
Properties = Bytes → Option ℕ

unfoldable pub with_property : Bytes → ℕ → Properties → Properties
with_property name value p q = if text_eq q name then some value else p q

pub record ExcelEnv : Type 0 where
  -- `CreateObject`, whose error is dropped: without an object the query of its interface
  -- dereferences nil.
  pub create_object : Option Properties
  pub query_error : Option GoError
  pub put_error : Bytes → Option GoError

abbrev pub mso_automation_security_force_disable : ℕ
mso_automation_security_force_disable = 3

abbrev queried : Option Properties → Option GoError → Outcome Properties
queried none e = panic
queried (some p) (some e) = err e
queried (some p) none = ok p

-- `createExcelInstance`
unfoldable pub create_excel_instance : ExcelEnv → Outcome Properties
create_excel_instance env = queried env.create_object env.query_error

abbrev pub put_or_log : Option GoError → Bytes → ℕ → Properties → Properties
put_or_log none name value p = with_property name value p
put_or_log (some e) name value p = p

abbrev must_put : Option GoError → Bytes → ℕ → Properties → Outcome Properties
must_put none name value p = ok (with_property name value p)
must_put (some e) name value p = panic

module _ (env : ExcelEnv) where
  -- `PutProperty`, whose error is only logged.
  unfoldable pub put_property : Bytes → ℕ → Properties → Properties
  put_property name value p = put_or_log (env.put_error name) name value p

  -- `MustPutProperty`
  unfoldable pub must_put_property : Bytes → ℕ → Properties → Outcome Properties
  must_put_property name value p = must_put (env.put_error name) name value p

  -- `Visible`, `DisplayAlerts` and `ScreenUpdating`: on for debugging, else off.
  abbrev shown : Bool → Properties → Properties
  shown in_dbg p =
      let on = if in_dbg then 1 else 0 in
      put_property (codes "ScreenUpdating") on
        (put_property (codes "DisplayAlerts") on (put_property (codes "Visible") on p))

  -- `excelInstanceStartupConfig` on an application that is there.
  unfoldable pub excel_instance_startup_config : Bool → Properties → Outcome Properties
  unfolding put_property must_put_property
  excel_instance_startup_config in_dbg p = do
    secured ← must_put_property (codes "AutomationSecurity") mso_automation_security_force_disable (
        put_property (codes "DeferAsyncQueries") 1
          (put_property (codes "IgnoreRemoteRequests") 1 (shown in_dbg p)))
    ok (put_property (codes "ODBCTimeout") 10 secured)

  -- `Init`, as far as the application goes.
  unfoldable pub init_excel : Bool → Outcome Properties
  unfolding create_excel_instance excel_instance_startup_config
  init_excel in_dbg = do p ← create_excel_instance env; excel_instance_startup_config in_dbg p

  -- Behind the automation security.
  abbrev secured : Bool → Properties → Properties
  secured in_dbg p =
      with_property (codes "AutomationSecurity") mso_automation_security_force_disable (
        put_property (codes "DeferAsyncQueries") 1
          (put_property (codes "IgnoreRemoteRequests") 1 (shown in_dbg p)))

  put_or_log-other :
      (e : Option GoError) (name q : Bytes) (value : ℕ) (p : Properties)
      → text_eq q name ≡ false
      → put_or_log e name value p q ≡ p q
  unfolding with_property
  put_or_log-other none name q value p n = rw n
  put_or_log-other (some e) name q value p n = refl

-- Where Excel can be created, either it refuses the automation security and `Init` ends in a panic,
-- or `Init` returns a worker in which the automation security is set so that no macro of a workbook
-- runs, whichever of the other properties Excel refuses.
pub init_excel_secured :
    (env : ExcelEnv) (in_dbg : Bool) (p : Properties)
    → create_excel_instance env ≡ ok p
    → ((e : GoError) × (env.put_error (codes "AutomationSecurity") ≡ some e)
        × (init_excel env in_dbg ≡ panic))
      ⊎ ((r : Properties) × (init_excel env in_dbg ≡ ok r)
          × (r (codes "AutomationSecurity") ≡ some mso_automation_security_force_disable))
unfolding init_excel
init_excel_secured env in_dbg p created =
    elim (Option-cases (env.put_error (codes "AutomationSecurity"))) [
      | inr (e, refuses) ↦ inl (e, refuses, rw created (rw refuses refl))
      | inl takes ↦ inr (
        put_property env (codes "ODBCTimeout") 10 (secured env in_dbg p),
        rw created (rw takes refl),
        put_or_log-other env (env.put_error (codes "ODBCTimeout")) (codes "ODBCTimeout")
              (codes "AutomationSecurity") 10 (secured env in_dbg p) (unfold text_eq in refl)
            ∙ (unfold with_property in rw (text_eq_refl (codes "AutomationSecurity")) refl),
      )
    ]

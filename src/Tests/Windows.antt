-- ===== src/Tests/Windows.antt =====
-- An Excel that refuses what it can, and a process without a token of its own.
use cramc.Prelude.{◌≡◌, refl, ◌⊎◌, false, none, some, [], if◌then◌else◌, Bytes, codes, text_eq}
use cramc.Prelude.Outcome.{GoError, ok, panic, unknown_internal_error}
use cramc.Excel.Config.{
  Properties, ExcelEnv, create_excel_instance, init_excel, mso_automation_security_force_disable,
  init_excel_secured,
}
use cramc.Search.Walk.{Found}
use cramc.Search.Booster.{BoosterEnv, booster_stage, MayReadTable, search_stage_without_table}

abbrev security : Bytes
security = codes "AutomationSecurity"

abbrev refusing : ExcelEnv
refusing = record {
  create_object = some (λ name. none);
  query_error = none;
  put_error = λ name. if text_eq name security then none else some unknown_internal_error;
}

refusing_created : create_excel_instance refusing ≡ ok (λ name. none)
unfolding create_excel_instance
refusing_created = refl

init_excel_secured_example :
    ((e : GoError) × (refusing.put_error security ≡ some e) × (init_excel refusing false ≡ panic))
    ⊎ ((r : Properties) × (init_excel refusing false ≡ ok r)
        × (r security ≡ some mso_automation_security_force_disable))
init_excel_secured_example = init_excel_secured refusing false (λ name. none) refusing_created

abbrev plain_user : BoosterEnv
plain_user = record {
  current_user = ok tt;
  open_process_token = none;
  token_is_elevated = false;
  get_volume_information = λ root. ok (codes "NTFS");
}

abbrev nothing_found : Found
nothing_found = record { counter = 0; sent = [] }

not_elevated : MayReadTable plain_user (codes "C:/Users") false → ⊥
not_elevated (elevated, volume, flag) = cc

search_stage_without_table_example :
    booster_stage plain_user (codes "C:/Users") false (λ p. ok 10) panic nothing_found
    ≡ booster_stage plain_user
        (codes "C:/Users")
        false
        (λ p. ok 10)
        (ok nothing_found)
        nothing_found
search_stage_without_table_example =
    search_stage_without_table plain_user (codes "C:/Users") false (λ p. ok 10) panic
      (ok nothing_found) nothing_found not_elevated

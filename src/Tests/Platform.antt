-- ===== src/Tests/Platform.antt =====
-- Sessions and processes.
use cramc.Prelude.{
  ◌==◌, if◌then◌else◌, ℕ, ◌≡◌, refl, true, [], ◌∷◌, Bytes, codes, text_eq, some, none,
}
use cramc.Prelude.Outcome.{insufficient_privilege, ok}
use cramc.Platform.Processes.{covered_process, to_lower}
use cramc.Platform.Calls.{NativeCalls, cur_user_name, first_active, select_session-first_active}
use cramc.Platform.Session.{
  select_session, Session, wts_active, wts_disconnected, is_usable, get_active_wts_session_id,
}

excel-is_covered : text_eq covered_process (to_lower (codes "EXCEL.EXE")) ≡ true
unfolding to_lower text_eq
excel-is_covered = refl

abbrev user_name : ℕ → Bytes
user_name id = codes "alice"

abbrev services : Session
services = record { session_id = 0; state = wts_disconnected }

abbrev left : Session
left = record { session_id = 2; state = wts_disconnected }

abbrev console : Session
console = record { session_id = 1; state = wts_active }

left-is_usable : is_usable user_name left ≡ true
unfolding text_eq
left-is_usable = refl

left_taken : get_active_wts_session_id (ok (services ∷ left ∷ console ∷ [])) user_name ≡ ok 2
unfolding get_active_wts_session_id select_session text_eq
left_taken = refl

-- A Windows on which every session has a user.
abbrev calls : NativeCalls
calls = record {
  query_session =
      λ server session klass buffer size. if server == 0 then some (codes "alice") else none;
  last_error = insufficient_privilege;
  is_os = λ os. if os == 1 then 1 else 0;
  co_initialize_security = λ args. 0;
}

select_session-first_active_example :
    select_session (cur_user_name calls 4096 4104) (left ∷ console ∷ [])
    ≡ first_active (left ∷ console ∷ [])
select_session-first_active_example =
    select_session-first_active calls 4096 4104 (λ session klass buffer size. refl)
      (left ∷ console ∷ [])

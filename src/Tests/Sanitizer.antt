-- ===== src/Tests/Sanitizer.antt =====
-- A helper that is started for the user who is logged in, and one that runs for a user.
use cramc.Prelude.{
  ℕ, ◌≡◌, refl, ap, true, false, none, some, List, [], ◌∷◌, arith, length, any, codes, text_eq,
}
use cramc.Prelude.Outcome.{ok, err, blocked, unknown_internal_error}
use cramc.Platform.Privilege.{PrivilegeEnv}
use cramc.Platform.Session.{
  Session, wts_active, get_logged_in_user_token, get_active_wts_session_id, select_session,
}
use cramc.Platform.Spawn.{SpawnEnv, check_running_under_system, helper_started}
use cramc.Rpc.Client.{Peer}
use cramc.Rpc.Client.Waiting.{control_line, told}
use cramc.Rpc.Client.Sending.{attempted}
use cramc.Rpc.EndToEnd.{served, closes_quit}
use cramc.Rpc.Quit.{Quit, Reach, begun}
use cramc.Sanitizer.{start_sanitizer}
use cramc.Sanitizer.Early.{first_error, start_sanitizer_err}
use cramc.Sanitizer.Served.{connected_client, start_sanitizer-served}
use cramc.Disk.{put, put_other}
use cramc.Helper.{
  HelperEnv, HelperEnd, main_panicked, goroutine_panicked, Machine, lock_file, excel_ready,
  lift_vba_scripting_access, helper_main,
}
use cramc.Helper.Lock.{CanLock, lock_left, ended, helper_main-lock_left, helper_locked_out}
use cramc.Tests.Codec.{braces, braces-IsCodec}
use cramc.Tests.Rpc.{env, doc, server, me-IsAscii}
use cramc.Tests.RpcQuit.{ticks, dials}

abbrev peer : Peer
peer = served braces env (server false) ticks dials

abbrev granting : PrivilegeEnv
granting = record {
  open_process_token = none;
  lookup_privilege_value = λ priv. none;
  adjust_token_privileges = λ priv. none;
}

abbrev console : Session
console = record { session_id = 1; state = wts_active }

abbrev spawn : List Session → SpawnEnv
spawn sessions = record {
  new_uuid = ok (codes "me");
  current_uid = ok (codes "S-1-5-18");
  token_calls = record {
    query_user_token = λ id. ok id;
    privileges = granting;
    duplicate_token = λ token kind. ok token;
  };
  sessions = ok sessions;
  user_name = λ id. codes "alice";
  environ = λ t. ok tt;
  start_process = λ t. ok tt;
  helper_leaves = λ sent. any (closes_quit braces env (server false)) sent;
}

starts : helper_started (spawn (console ∷ [])) ≡ ok tt
unfolding helper_started check_running_under_system text_eq get_logged_in_user_token
    get_active_wts_session_id select_session
starts = refl

start_sanitizer-served_example :
    (start_sanitizer braces peer (spawn (console ∷ [])) [] ≡ (
      ok tt,
      told connected_client (control_line braces peer (codes "me") connected_client (codes "quit")),
    ))
    × (start_sanitizer braces peer (spawn (console ∷ [])) (doc ∷ doc ∷ []) ≡ (
      blocked,
      told connected_client (control_line braces peer (codes "me") connected_client (codes "ping")),
    ))
start_sanitizer-served_example =
    start_sanitizer-served braces env (server false) ticks dials (spawn (console ∷ [])) (codes "me")
      doc (doc ∷ []) braces-IsCodec refl me-IsAscii (λ e. cc) refl refl refl starts (λ sent. refl)

start_sanitizer_err_example :
    let no_session = spawn [] in
    let (o, c) = start_sanitizer braces peer no_session (doc ∷ []) in
    let before = attempted none none none in
    ((o ≡ err unknown_internal_error)
      → (first_error (ok (codes "me")) (helper_started no_session) before
          ≡ err unknown_internal_error)
        × (c.sent ≡ []))
    × ((first_error (ok (codes "me")) (helper_started no_session) before
          ≡ err unknown_internal_error)
        → (o ≡ err unknown_internal_error))
start_sanitizer_err_example =
    start_sanitizer_err braces peer (spawn []) (doc ∷ []) unknown_internal_error

abbrev helper : HelperEnv
helper = record {
  current_uid = ok (codes "S-1-5-21-7");
  stat_error = λ p. none;
  create_error = none;
  remove_error = none;
  listen_error = none;
  create_key_error = none;
  set_value_error = some unknown_internal_error;
  co_initialize_error = none;
  worker_init = ok tt;
  worker_workbooks = ok tt;
  working = put (codes "b.xls.gz.bak") (some []);
}

abbrev machine : Machine
machine = record { disk = λ q. none; registry = λ k n. none }

abbrev ready : HelperEnv
ready = record helper { set_value_error = none }

ready-CanLock : CanLock ready
ready-CanLock = record {
  uid = codes "S-1-5-21-7";
  known = refl;
  not_system = λ e. absurd (omega (arith, ap (length {A = ℕ}) e));
  examines = refl;
  creates = refl;
  removes = refl;
  spares = λ disk.
      put_other disk (codes "b.xls.gz.bak") (some []) lock_file
        (λ e. absurd (omega (arith, ap (length {A = ℕ}) e)));
}

helper_main-lock_left_example :
    let (end, m') = helper_main ready goroutine_panicked machine in
    (m'.disk lock_file ≡ lock_left end) × (m'.disk (codes "a.xls") ≡ none)
helper_main-lock_left_example =
    helper_main-lock_left ready machine goroutine_panicked (codes "a.xls") ready-CanLock refl
      (λ e. absurd (omega (arith, ap (length {A = ℕ}) e)))
      (λ disk.
        put_other disk (codes "b.xls.gz.bak") (some []) (codes "a.xls")
          (λ e. absurd (omega (arith, ap (length {A = ℕ}) e))))

helper_locked_out_example :
    (r : Quit) × Reach (begun 1 0 true) r
    × (let (end, m') = helper_main ready (ended r) machine in
        (end ≡ goroutine_panicked)
        × ((ran : HelperEnd) → helper_main ready ran m' ≡ (main_panicked, m')))
unfolding excel_ready lift_vba_scripting_access
helper_locked_out_example =
    helper_locked_out ready machine 1 0 true ready-CanLock refl refl refl (omega arith)

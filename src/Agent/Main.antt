-- ===== src/Agent/Main.antt =====
-- `main` of gocode/cmd/aioagent/main.go from its flags to the list of what its goroutine is to send
-- on the two queues: the start, the search of the disk, the rules and the scan, or the list of
-- matches that is supplied, and the dispatch. The sends themselves, which wait for room in the
-- queues, and the goroutines that empty them are in Pipeline/Queues; `main` then waits for these
-- goroutines.
pub mod Reports
use cramc.Prelude.{
  ℕ, zero, suc, ◌+◌, ◌-◌, ◌*◌, ◌/◌, ◌%◌, ◌^◌, ◌≤◌, ◌<◌, String, ◌≡◌, refl, sym, ap, ◌∙◌, ◌≢◌, ◌↔◌,
  ◌⊎◌, inl, inr, Bool, true, false, not, ◌&&◌, ◌||◌, Option, none, some, List, [], ◌∷◌, ◌++◌, map,
  append-nil, append_assoc, arith, ltb, leb, ◌==◌, if◌then◌else◌, Bool-cases, Option-cases, length,
  take, drop, replicate, any, All, length-append, length-drop, take-append, drop-append, length-map,
  get_elem?, set, erase_at, get_elem?-append, set-append, erase_at-append, get_elem?-length, Bytes,
  codes, text_eq, text_eq_iff, text_eq_refl, text_eq-append, text_ne,
}
use cramc.Prelude.Outcome.{
  >>=-eq-ok, GoError, Outcome, ok, err, panic, blocked, ◌>>=◌, ◌>>◌, unsupported_platform,
}
use cramc.Common.{CramcCleanupDb, YaraScanResult}
use cramc.Disk.{Disk}
use cramc.Crypto.{Aead}
use cramc.Crypto.Password.{hex_encryption_password}
use cramc.Agent.{AgentFlags, AgentEnv, Globals, yara_rules_path, read_encrypted, startup}
use cramc.Search.Walk.{Nodes, Found, general_walkthrough_search}
use cramc.Search.Mft.{MftRow, extract_and_parse_mft_then_search}
use cramc.Search.Booster.{
  Answer, answer, exits, crashes, waits, check_process_elevated, is_drive_file_system_ntfs,
}
use cramc.Search.Stage.{Flags, Searched, searched, exited, crashed, waiting, search_stage}
use cramc.Scanner.ResultText.{TextFile, parse_yara_scan_result_text}
use cramc.Scanner.Yara.{YaraEnv, load_rule_and_create_yara_scanner, scan_files_with_yara}
use cramc.Pipeline.{Sent, dispatch_matches}

abbrev pub allowed_exts : List Bytes
allowed_exts = codes ".xls" ∷ codes ".xlsx" ∷ codes ".xlsm" ∷ codes ".xlsb" ∷ []

-- What the search and the scan come upon: the disk, the reading of compiled rules and the scanner
-- over them (`yarax.ReadFrom`, `yarax.NewScanner`), and the file of the external scan.
pub record World : Type 1 where
  pub open_stream : Outcome (List MftRow)
  pub root_error : Option GoError
  pub read_dir_error : Option GoError
  pub nodes : Nodes
  pub on_disk : Bytes → Outcome ℕ
  pub YaraRules : Type 0
  pub read_from : Bytes → Outcome YaraRules
  pub new_scanner : YaraRules → YaraEnv
  pub ipt_list : Outcome TextFile

-- Where the program gets to: to the dispatch, with what is to be sent, or before it to an
-- `os.Exit(-1)` behind an error, an end with another code, a panic, or a wait for ever.
pub data Ended : Type 0 where
  dispatches : List Sent → Ended
  fatal : GoError → Ended
  ended_with : ℕ → Ended
  panicked stuck : Ended

module _ (aead : Aead) (env : AgentEnv) (world : World) (flags : AgentFlags) (disk : Disk) where
  -- The variable `yrScanner`.
  unfoldable pub scanner_loaded : Outcome YaraEnv
  unfolding load_rule_and_create_yara_scanner
  scanner_loaded = do
    h_pwd_bytes ← env.decode_string hex_encryption_password
    exec_path ← env.executable
    yr_rule_bin ← read_encrypted aead env flags h_pwd_bytes exec_path yara_rules_path disk
    load_rule_and_create_yara_scanner world.read_from world.new_scanner yr_rule_bin

  -- On other systems both tests return false with `ErrUnsupportedPlatform`.
  abbrev pub process_elevated : Answer
  process_elevated =
      if env.is_running_on_win
      then check_process_elevated env.booster
      else answer false (some unsupported_platform)

  abbrev pub drive_ntfs : Answer
  drive_ntfs =
      if env.is_running_on_win
      then is_drive_file_system_ntfs env.booster flags.action_path
      else answer false (some unsupported_platform)

  abbrev pub scan_flags : Bool → Bool → Flags
  scan_flags elevated ntfs = record {
    is_elevated = elevated;
    is_ntfs = ntfs;
    no_priv = flags.no_priv;
    is_running_on_win = env.is_running_on_win;
  }

  unfoldable pub searched_list : Bool → Bool → Searched
  searched_list elevated ntfs =
      search_stage (scan_flags elevated ntfs) world.on_disk
        (extract_and_parse_mft_then_search flags.action_path allowed_exts world.open_stream)
        (general_walkthrough_search flags.action_path allowed_exts world.root_error
          world.read_dir_error world.nodes)

  abbrev dispatched : CramcCleanupDb → List YaraScanResult → Ended
  dispatched db matches = dispatches (dispatch_matches flags.enable_hardening db.solutions matches)

  abbrev pub scanned : CramcCleanupDb → List Bytes → Outcome YaraEnv → Ended
  scanned db list (ok yara) = dispatched db (scan_files_with_yara yara list)
  scanned db list (err e) = fatal e
  scanned db list panic = panicked
  scanned db list blocked = stuck

  abbrev pub after_search : CramcCleanupDb → Searched → Ended
  after_search db (searched fallback list) = scanned db list scanner_loaded
  after_search db (exited code) = ended_with code
  after_search db crashed = panicked
  after_search db waiting = stuck

  -- An error of the supplied list ends the program, whatever was sent before.
  abbrev after_parse : CramcCleanupDb → List YaraScanResult × Option GoError → Ended
  after_parse db (matches, none) = dispatched db matches
  after_parse db (matches, some e) = ended_with 1

  -- Behind the tests, from the database and the two values.
  abbrev pub after_tests : Option CramcCleanupDb → Bool → Bool → Ended
  after_tests none elevated ntfs = panicked
  after_tests (some db) elevated ntfs =
      if flags.no_disk_scan
      then after_parse db (parse_yara_scan_result_text world.ipt_list)
      else after_search db (searched_list elevated ntfs)

  -- The errors of the two tests are dropped, but not an exit or a panic.
  abbrev pub tested : Option CramcCleanupDb → Answer → Answer → Ended
  tested db (answer elevated e) (answer ntfs e') = after_tests db elevated ntfs
  tested db (answer elevated e) (exits code) = ended_with code
  tested db (answer elevated e) crashes = panicked
  tested db (answer elevated e) waits = stuck
  tested db (exits code) ntfs = ended_with code
  tested db crashes ntfs = panicked
  tested db waits ntfs = stuck

  abbrev pub after_startup : Outcome (Unit {0}) × Globals → Ended
  after_startup (ok u, globals) = tested globals.cleanup_db process_elevated drive_ntfs
  after_startup (err e, globals) = fatal e
  after_startup (panic, globals) = panicked
  after_startup (blocked, globals) = stuck

  unfoldable pub agent_main : Globals → Ended
  unfolding scanner_loaded searched_list
  agent_main globals =
      if flags.help then ended_with 0 else after_startup (startup aead env flags disk globals)

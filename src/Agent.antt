-- ===== src/Agent.antt =====
-- gocode/cmd/aioagent/main.go up to its search: the tests of the flags, the cleanup database and
-- the update check (with gocode/updchecker/updck.go). Logs and the telemetry are left out, and
-- what the killing of Excel's processes returns is dropped by the code.
pub mod Startup
pub mod Main
use cramc.Prelude.{
  ℕ, zero, suc, ◌+◌, ◌-◌, ◌*◌, ◌/◌, ◌%◌, ◌^◌, ◌≤◌, ◌<◌, String, ◌≡◌, refl, sym, ap, ◌∙◌, ◌≢◌, ◌↔◌,
  ◌⊎◌, inl, inr, Bool, true, false, not, ◌&&◌, ◌||◌, Option, none, some, List, [], ◌∷◌, ◌++◌, map,
  append-nil, append_assoc, arith, ltb, leb, ◌==◌, if◌then◌else◌, Bool-cases, Option-cases, length,
  take, drop, replicate, any, All, length-append, length-drop, take-append, drop-append, length-map,
  get_elem?, set, erase_at, get_elem?-append, set-append, erase_at-append, get_elem?-length, Bytes,
  codes, text_eq, text_eq_iff, text_eq_refl, text_eq-append, text_ne,
}
use cramc.Prelude.Outcome.{
  >>=-eq-ok, GoError, Outcome, ok, err, panic, blocked, ◌>>=◌, ◌>>◌, action_path_must_be_dir,
  not_latest_version, no_scan_set_but_no_list_provided,
}
use cramc.Common.{CramcCleanupDb}
use cramc.Disk.{Disk}
use cramc.Search.Booster.{BoosterEnv}
use cramc.Crypto.{Aead, xchacha20_decrypt}
use cramc.Crypto.Password.{hex_encryption_password}

pub record AgentFlags : Type 0 where
  pub action_path : Bytes
  pub dry_run : Bool
  pub enable_hardening : Bool
  pub no_disk_scan : Bool
  pub help : Bool
  pub no_priv : Bool
  pub skip_upd_chk : Bool

pub record LatestVersion : Type 0 where
  pub database_version : ℕ
  pub program_revision : ℕ

-- The package net/http, and encoding/json on the answer. `do_request` is the body that can be read.
pub record UpdateEnv : Type 0 where
  pub new_request_error : Option GoError
  pub do_request : Outcome (Outcome Bytes)
  pub unmarshal : Bytes → Outcome LatestVersion

-- What the start calls: `os.Stat` (a file is a directory or not, or it cannot be examined),
-- `os.Executable`, `filepath.Dir` and `Join`, the reading of files that are there, encoding/hex and
-- encoding/json, and what `CheckProcessElevated` and `IsDriveFileSystemNTFS` call.
pub record AgentEnv : Type 0 where
  pub stat : Bytes → Option Bool
  pub executable : Outcome Bytes
  pub dir : Bytes → Bytes
  pub join : Bytes → Bytes → Bytes
  pub read_error : Bytes → Option GoError
  pub open_error : Bytes → GoError
  pub spare : Bytes
  pub decode_string : Bytes → Outcome Bytes
  pub unmarshal_db : Bytes → Outcome CramcCleanupDb
  pub update : UpdateEnv
  pub booster : BoosterEnv
  pub is_running_on_win : Bool

-- The variables of gocode/common/shared.go that `main` sets.
pub record Globals : Type 0 where
  pub cleanup_db : Option CramcCleanupDb
  pub dry_run_only : Bool
  pub enable_hardening : Bool

abbrev pub program_rev : ℕ
program_rev = 12

abbrev pub database_path : Bytes
database_path = codes "cramc_db.bin"

abbrev pub yara_rules_path : Bytes
yara_rules_path = codes "unified.yar.bin"

abbrev pub ipt_file_list : Bytes
ipt_file_list = codes "ipt_yrscan.lst"

abbrev tried : Option GoError → Outcome (Unit {0})
tried none = ok tt
tried (some e) = err e

-- `CheckUpdateFromInternet`
unfoldable pub check_update_from_internet : UpdateEnv → Outcome LatestVersion
check_update_from_internet env = do
  tried env.new_request_error
  body ← env.do_request
  latest_json_bytes ← body
  env.unmarshal latest_json_bytes

abbrev read_of : AgentEnv → Bytes → Option Bytes → Option GoError → Outcome Bytes
read_of env path none e = err (env.open_error path)
read_of env path (some content) none = ok content
read_of env path (some content) (some e) = err e

-- `os.ReadFile`
unfoldable pub read_file : AgentEnv → Bytes → Disk → Outcome Bytes
read_file env path disk = read_of env path (disk path) (env.read_error path)

-- An error stands for its log and `os.Exit(-1)`.
module _ (aead : Aead) (env : AgentEnv) (flags : AgentFlags) where
  abbrev is_dir : Option Bool → Bool
  is_dir none = false
  is_dir (some d) = d

  abbrev is_plain : Option Bool → Bool
  is_plain none = false
  is_plain (some d) = not d

  unfoldable pub args_checked : Outcome (Unit {0})
  args_checked =
      if not (is_dir (env.stat flags.action_path))
      then err action_path_must_be_dir
      else if flags.no_disk_scan && not (is_plain (env.stat ipt_file_list))
      then err no_scan_set_but_no_list_provided
      else ok tt

  -- A file beside the program, decrypted.
  unfoldable pub read_encrypted : Bytes → Bytes → Bytes → Disk → Outcome Bytes
  unfolding read_file
  read_encrypted h_pwd_bytes exec_path name disk = do
    enc_bin ← read_file env (env.join (env.dir exec_path) name) disk
    xchacha20_decrypt aead h_pwd_bytes (record { bytes = enc_bin; spare = env.spare })

  unfoldable pub load_database : Disk → Outcome CramcCleanupDb
  unfolding read_encrypted
  load_database disk = do
    h_pwd_bytes ← env.decode_string hex_encryption_password
    exec_path ← env.executable
    original_cleanup_db ← read_encrypted h_pwd_bytes exec_path database_path disk
    env.unmarshal_db original_cleanup_db

  -- An error of the update check is only logged.
  unfoldable pub update_gate : Outcome LatestVersion → ℕ → Outcome (Unit {0})
  update_gate (ok latest_v) version =
      if flags.skip_upd_chk
      then ok tt
      else if not (latest_v.program_revision == program_rev)
      then err not_latest_version
      else if not (latest_v.database_version == version)
      then err not_latest_version
      else ok tt
  update_gate (err e) version = ok tt
  update_gate panic version = panic
  update_gate blocked version = blocked

  abbrev pub checked : Outcome (Unit {0}) → Globals → Outcome (Unit {0}) × Globals
  checked (ok u) globals = (ok tt, globals)
  checked (err e) globals = (err e, globals)
  checked panic globals = (panic, globals)
  checked blocked globals = (blocked, globals)

  abbrev pub loaded : Outcome CramcCleanupDb → Globals → Outcome (Unit {0}) × Globals
  loaded (ok db) globals =
      checked (update_gate (check_update_from_internet env.update) db.version) (record globals {
        cleanup_db = some db;
        dry_run_only = flags.dry_run;
        enable_hardening = flags.enable_hardening;
      })
  loaded (err e) globals = (err e, globals)
  loaded panic globals = (panic, globals)
  loaded blocked globals = (blocked, globals)

  unfoldable pub startup : Disk → Globals → Outcome (Unit {0}) × Globals
  unfolding args_checked load_database update_gate check_update_from_internet
  startup disk globals = loaded (args_checked >> load_database disk) globals

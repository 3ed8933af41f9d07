-- ===== src/Agent/Startup.antt =====
-- Theorems on the start of gocode/cmd/aioagent/main.go.
use cramc.Prelude.{ℕ, ◌≡◌, ◌↔◌, ◌⊎◌, true, false, some, arith}
use cramc.Prelude.Outcome.{Outcome, ok, err, panic, blocked}
use cramc.Crypto.{Aead}
use cramc.Agent.{
  AgentFlags, LatestVersion, AgentEnv, program_rev, update_gate, CramcCleanupDb, args_checked, Disk,
  startup, Globals, ipt_file_list, check_update_from_internet, load_database,
}

-- The update check failed, is to be skipped, or says that the program and its database are the
-- latest.
abbrev IsCurrent : AgentFlags → Outcome LatestVersion → ℕ → Type 0
IsCurrent flags (ok v) version =
    (flags.skip_upd_chk ≡ true)
    ⊎ ((v.program_revision ≡ program_rev) × (v.database_version ≡ version))
IsCurrent flags (err e) version = Unit {0}
IsCurrent flags _ version = ⊥

update_gate_iff :
    (flags : AgentFlags) (env : AgentEnv) (aead : Aead) (v : Outcome LatestVersion) (version : ℕ)
    → (update_gate aead env flags v version ≡ ok tt) ↔ IsCurrent flags v version
unfolding update_gate
update_gate_iff flags env aead (ok v) version = ground arith
update_gate_iff flags env aead (err e) version = ground arith
update_gate_iff flags env aead panic version = ground arith
update_gate_iff flags env aead blocked version = ground arith

args_checked_iff :
    (flags : AgentFlags) (env : AgentEnv) (aead : Aead)
    → (args_checked aead env flags ≡ ok tt) ↔ (
        (env.stat flags.action_path ≡ some true)
        × ((flags.no_disk_scan ≡ false) ⊎ (env.stat ipt_file_list ≡ some false)))
unfolding args_checked
args_checked_iff flags env aead = ground arith

-- What a start leaves in the shared variables.
abbrev pub ready : AgentFlags → Globals → CramcCleanupDb → Globals
ready flags globals db = record globals {
  cleanup_db = some db;
  dry_run_only = flags.dry_run;
  enable_hardening = flags.enable_hardening;
}

module _ (aead : Aead) (env : AgentEnv) (flags : AgentFlags) where
  -- What the start needs to find, with the database that it loads.
  abbrev pub Gates : Disk → CramcCleanupDb → Type 0
  Gates disk db =
      (env.stat flags.action_path ≡ some true)
      × ((flags.no_disk_scan ≡ false) ⊎ (env.stat ipt_file_list ≡ some false))
      × (load_database aead env flags disk ≡ ok db)
      × IsCurrent flags (check_update_from_internet env.update) db.version

  pub Gates-startup :
      (disk : Disk) (globals : Globals) (db : CramcCleanupDb)
      → Gates disk db
      → startup aead env flags disk globals ≡ (ok tt, ready flags globals db)
  unfolding startup
  Gates-startup disk globals db (dir, list, l, c) =
      rw ((args_checked_iff flags env aead).1 (dir, list)) (
        rw l (
          rw (
            (update_gate_iff flags env aead (check_update_from_internet env.update) db.version).1
              c)))

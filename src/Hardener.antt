-- ===== src/Hardener.antt =====
-- gocode/hardener: what is done against a further infection. The file system is a parameter: each
-- call of the packages os and filepath takes it to the file system after the call, whether the call
-- succeeded or not, since its error is only logged.
pub mod Template
pub mod Effects
pub mod Repeats
use cramc.Prelude.{
  ℕ, Bool, true, not, ◌&&◌, Option, none, some, List, [], ◌∷◌, if◌then◌else◌, any, Bytes, codes,
  text_eq,
}
use cramc.Prelude.Outcome.{GoError, Outcome, ok, unsupported_platform}
use cramc.Common.{SingleHardenMeasure, HardeningAction}
use cramc.Hardener.Template.{TemplateEnv, apply_text_template}

pub record Os : Type 1 where
  pub Files : Type 0
  pub remove_all : Bytes → Files → Files
  pub mkdir_all : Bytes → ℕ → Files → Files
  pub mkdir : Bytes → ℕ → Files → Files
  pub create : Bytes → Files → Files
  pub truncate : Bytes → ℕ → Files → Files
  pub chmod : Bytes → ℕ → Files → Files
  -- `os.Stat(p)` and `IsDir`
  pub stat_is_dir : Bytes → Files → Outcome Bool
  -- the paths that `filepath.Walk` comes by
  pub walked : Bytes → Files → List Bytes

-- 0400
abbrev pub read_only : ℕ
read_only = 0o400

module _ (os : Os) where
  open os use {Files, remove_all, mkdir_all, mkdir, create, truncate, chmod, stat_is_dir, walked}

  abbrev pub chmod_each : List Bytes → Files → Files
  chmod_each [] fs = fs
  chmod_each (p ∷ ps) fs = chmod_each ps (chmod p read_only fs)

  abbrev pub chmod_below : Outcome Bool → Bytes → Files → Files
  chmod_below (ok true) p fs = chmod_each (walked p fs) fs
  chmod_below _ p fs = fs

  -- `f_harden_SetRO`
  unfoldable pub f_harden_set_ro : Bytes → Bytes → Files → Files
  f_harden_set_ro a_type filep fs =
      if text_eq a_type (codes "file")
      then chmod filep read_only fs
      else if text_eq a_type (codes "dir")
      then chmod_below (stat_is_dir filep fs) filep fs
      else fs

  -- `f_harden_rmReplaceDirSetRO`; the arguments of its last call stand as in the source.
  unfoldable pub f_harden_rm_replace_dir_set_ro : Bytes → Bytes → Files → Files
  unfolding f_harden_set_ro
  f_harden_rm_replace_dir_set_ro a_type filep fs =
      if text_eq a_type (codes "file")
      then f_harden_set_ro filep (codes "dir") (mkdir_all filep read_only (remove_all filep fs))
      else fs

  -- `f_harden_replaceFileSetRO`; the arguments of its last call stand as in the source.
  unfoldable pub f_harden_replace_file_set_ro : Bytes → Bytes → Files → Files
  unfolding f_harden_set_ro
  f_harden_replace_file_set_ro a_type filep fs =
      if text_eq a_type (codes "dir")
      then f_harden_set_ro filep (codes "file") (create filep (remove_all filep fs))
      else fs

  abbrev cleaned : Bytes → Bytes → Files → Files
  cleaned a_type filep fs =
      if text_eq a_type (codes "file")
      then truncate filep 0 (create filep fs)
      else if text_eq a_type (codes "dir")
      then mkdir filep read_only (remove_all filep fs)
      else fs

  -- `f_harden_CleanSetRO`
  unfoldable pub f_harden_clean_set_ro : Bytes → Bytes → Files → Files
  unfolding f_harden_set_ro
  f_harden_clean_set_ro a_type filep fs = f_harden_set_ro a_type filep (cleaned a_type filep fs)

  -- The `switch` on the action.
  unfoldable pub harden_one : SingleHardenMeasure → Bytes → Files → Files
  unfolding f_harden_rm_replace_dir_set_ro f_harden_replace_file_set_ro f_harden_clean_set_ro
  harden_one act dest fs =
      if text_eq act.action (codes "replaceFile_setRO")
      then f_harden_replace_file_set_ro act.type dest fs
      else if text_eq act.action (codes "rm_replaceDir_setRO")
      then f_harden_rm_replace_dir_set_ro act.type dest fs
      else if text_eq act.action (codes "clean_setRO")
      then f_harden_clean_set_ro act.type dest fs
      else if text_eq act.action (codes "setRO")
      then f_harden_set_ro act.type dest fs
      else fs

  abbrev pub templated : SingleHardenMeasure → Outcome Bytes → Files → Files
  templated act (ok dest) fs = harden_one act dest fs
  templated act _ fs = fs

  -- `takeProperHardenAction`
  unfoldable pub take_proper_harden_action : TemplateEnv → List SingleHardenMeasure → Files → Files
  unfolding apply_text_template
  take_proper_harden_action env [] fs = fs
  take_proper_harden_action env (act ∷ acts) fs =
      take_proper_harden_action env acts (templated act (apply_text_template env act.dest) fs)

-- The globals `common.DryRunOnly` and `common.IsRunningOnWin`, the keys of the map
-- `common.HardenedDetectionTypes` and the file system.
pub record Hardener (os : Os) : Type 0 where
  pub dry_run_only : Bool
  pub is_running_on_win : Bool
  pub hardened_detection_types : List Bytes
  pub files : os.Files

module _ (os : Os) (env : TemplateEnv) where
  -- `DispatchHardenAction`. The lock makes the test and the entry one step.
  unfoldable pub dispatch_harden_action :
      HardeningAction → Hardener os → Option GoError × Hardener os
  dispatch_harden_action a h =
      let seen = any (λ n. text_eq n a.name) h.hardened_detection_types in
      if h.dry_run_only
      then (none, h)
      else if not h.is_running_on_win
      then (some unsupported_platform, h)
      else if seen && not a.allow_repeated_harden
      then (none, h)
      else (
        none,
        record h {
          hardened_detection_types =
              if seen then h.hardened_detection_types else a.name ∷ h.hardened_detection_types;
          files = take_proper_harden_action os env a.action_lst h.files;
        },
      )

  -- The loop over `common.HardeningQueue` in gocode/cmd/aioagent/main.go; errors are logged.
  unfoldable pub hardening_loop : List HardeningAction → Hardener os → Hardener os
  hardening_loop [] h = h
  hardening_loop (a ∷ as') h = hardening_loop as' (dispatch_harden_action a h).1

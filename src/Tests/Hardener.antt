-- ===== src/Tests/Hardener.antt =====
-- A file system that lists the calls made of it, and the measures of one rule.
use cramc.Prelude.{ℕ, ◌≡◌, refl, Bool, true, false, List, [], ◌∷◌, Bytes, codes, text_eq}
use cramc.Prelude.Outcome.{ok}
use cramc.Common.{HardeningAction, SingleHardenMeasure}
use cramc.Hardener.{
  Os, Hardener, read_only, hardening_loop, f_harden_rm_replace_dir_set_ro,
  f_harden_replace_file_set_ro,
}
use cramc.Hardener.Template.{TemplateEnv}
use cramc.Hardener.Effects.{replacing_without_read_only}
use cramc.Hardener.Repeats.{hardening_loop_again}

pub data Call : Type 0 where
  removed created cleared : Bytes → Call
  made moded : Bytes → ℕ → Call

abbrev logging_os : Os
logging_os = record {
  Files = List Call;
  remove_all = λ p fs. removed p ∷ fs;
  mkdir_all = λ p m fs. made p m ∷ fs;
  mkdir = λ p m fs. made p m ∷ fs;
  create = λ p fs. created p ∷ fs;
  truncate = λ p n fs. cleared p ∷ fs;
  chmod = λ p m fs. moded p m ∷ fs;
  stat_is_dir = λ p fs. ok true;
  walked = λ p fs. p ∷ [];
}

abbrev env : TemplateEnv
env = record {
  run_as_system = ok true;
  home_dir = ok (codes "C:/Windows");
  logged_in_profile = ok (codes "C:/Users/alice");
}

abbrev startup_path : Bytes
startup_path = codes "C:/XLSTART"

startup_path-file : text_eq startup_path (codes "file") ≡ false
unfolding text_eq
startup_path-file = refl

startup_path-dir : text_eq startup_path (codes "dir") ≡ false
unfolding text_eq
startup_path-dir = refl

replacing_without_read_only_example :
    (f_harden_rm_replace_dir_set_ro logging_os (codes "file") startup_path []
      ≡ made startup_path read_only ∷ removed startup_path ∷ [])
    × (f_harden_replace_file_set_ro logging_os (codes "dir") startup_path []
        ≡ created startup_path ∷ removed startup_path ∷ [])
replacing_without_read_only_example =
    replacing_without_read_only logging_os startup_path [] startup_path-file startup_path-dir

abbrev measure : SingleHardenMeasure
measure = record {
  action = codes "clean_setRO";
  type = codes "dir";
  dest = codes "${HOME}/XLSTART";
}

abbrev action : HardeningAction
action = record { name = codes "Laroux"; allow_repeated_harden = false; action_lst = measure ∷ [] }

abbrev repeated : HardeningAction
repeated = record { name = codes "Other"; allow_repeated_harden = true; action_lst = measure ∷ [] }

abbrev fresh : Bool → Hardener logging_os
fresh dry = record {
  dry_run_only = dry;
  is_running_on_win = true;
  hardened_detection_types = [];
  files = [];
}

hardening_loop_again_example :
    let later =
      hardening_loop logging_os env
        (repeated ∷ [])
        (hardening_loop logging_os env (action ∷ []) (fresh false)) in
    hardening_loop logging_os env (action ∷ []) later ≡ later
hardening_loop_again_example =
    hardening_loop_again logging_os env (action ∷ []) (repeated ∷ []) (fresh false) (refl, tt)

-- ===== src/Rules.antt =====
-- gocode/yarax_scanner/yara_rule.go: `MergeAndCompile2UnifiedRules`, which the release builder
-- calls. The walk of the package filepath and the compiler of yara-x are parameters. Every error
-- ends in a panic, so which error it is does not matter.
pub mod Merged
use cramc.Prelude.{
  ℕ, zero, suc, ◌+◌, ◌-◌, ◌*◌, ◌/◌, ◌%◌, ◌^◌, ◌≤◌, ◌<◌, String, ◌≡◌, refl, sym, ap, ◌∙◌, ◌≢◌, ◌↔◌,
  ◌⊎◌, inl, inr, Bool, true, false, not, ◌&&◌, ◌||◌, Option, none, some, List, [], ◌∷◌, ◌++◌, map,
  append-nil, append_assoc, arith, ltb, leb, ◌==◌, if◌then◌else◌, Bool-cases, Option-cases, length,
  take, drop, replicate, any, All, length-append, length-drop, take-append, drop-append, length-map,
  get_elem?, set, erase_at, get_elem?-append, set-append, erase_at-append, get_elem?-length, Bytes,
  codes, text_eq, text_eq_iff, text_eq_refl, text_eq-append, text_ne,
}
use cramc.Prelude.Outcome.{GoError, Outcome, ok, err, panic, blocked, ◌>>=◌, ◌>>◌}
use cramc.Disk.{Disk, put}

-- What `filepath.Walk` hands to its function: the path, and the file's name and whether it is a
-- directory, or no information where the entry cannot be examined.
pub record WalkInfo : Type 0 where
  pub name : Bytes
  pub is_dir : Bool

pub record Visit : Type 0 where
  pub cur_path : Bytes
  pub cur_info : Option WalkInfo

pub record RuleEnv : Type 0 where
  pub walk : Bytes → Disk → List Visit
  -- Opening or reading a file that is there.
  pub read_error : Bytes → Option GoError
  pub new_compiler_error : Option GoError
  pub add_source_error : Bytes → Option GoError
  pub build : Bytes → Bytes
  pub compile_errors : Bytes → List GoError
  pub create_error : Bytes → Option GoError
  pub write_error : Bytes → Option GoError
  -- What is on the disk of a write that fails.
  pub cut : Bytes → Bytes

-- `strings.HasSuffix`
unfoldable pub has_suffix : Bytes → Bytes → Bool
has_suffix s suffix =
    leb (length suffix) (length s) && text_eq (drop (length s - length suffix) s) suffix

-- `if err != nil { panic(err) }`
abbrev must : Option GoError → Outcome (Unit {0})
must none = ok tt
must (some e) = panic

module _ (env : RuleEnv) (disk : Disk) where
  -- The rules of one file, as they are copied to the buffer.
  abbrev pub source_of : Bytes → Option Bytes → Option GoError → Outcome Bytes
  source_of cur_path none e = panic
  source_of cur_path (some rules) (some e) = panic
  source_of cur_path (some rules) none = ok (rules ++ b'\n' ∷ [])

  -- The function of the walk; `curInfo` is used also where it is nil.
  abbrev pub visit : Bytes → Option WalkInfo → Outcome Bytes
  visit cur_path none = panic
  visit cur_path (some cur_info) =
      if cur_info.is_dir
      then ok []
      else if has_suffix cur_info.name (codes ".yar")
      then source_of cur_path (disk cur_path) (env.read_error cur_path)
      else ok []

  -- `rawRulesStrBuf` behind the walk.
  unfoldable pub raw_rules : List Visit → Outcome Bytes
  unfolding has_suffix
  raw_rules [] = ok []
  raw_rules (v ∷ vs) = do
    rules ← visit v.cur_path v.cur_info
    more ← raw_rules vs
    ok (rules ++ more)

module _ (env : RuleEnv) where
  -- `yrCompiler.Errors()`
  abbrev compiled : List GoError → Bytes → Outcome Bytes
  compiled [] raw = ok (env.build raw)
  compiled (e ∷ es) raw = panic

  -- All that comes before the output is created.
  unfoldable pub compiled_rules : Bytes → Disk → Outcome Bytes
  unfolding raw_rules
  compiled_rules plain_text_rules_dir disk = do
    must env.new_compiler_error
    raw ← raw_rules env disk (env.walk plain_text_rules_dir disk)
    must (env.add_source_error raw)
    compiled (env.compile_errors raw) raw

  -- The creation of the output, and the write.
  abbrev pub stored :
      Bytes → Outcome Bytes → Option GoError → Option GoError → Disk → Outcome (Unit {0}) × Disk
  stored dest (ok rules) (some e) w disk = (panic, disk)
  stored dest (ok rules) none (some e) disk = (panic, put dest (some (env.cut rules)) disk)
  stored dest (ok rules) none none disk = (ok tt, put dest (some rules) disk)
  stored dest (err e) c w disk = (err e, disk)
  stored dest panic c w disk = (panic, disk)
  stored dest blocked c w disk = (blocked, disk)

  unfoldable pub merge_and_compile2unified_rules : Bytes → Bytes → Disk → Outcome (Unit {0}) × Disk
  unfolding compiled_rules
  merge_and_compile2unified_rules plain_text_rules_dir dest disk =
      stored dest (compiled_rules plain_text_rules_dir disk) (env.create_error dest)
        (env.write_error dest) disk

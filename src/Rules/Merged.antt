-- ===== src/Rules/Merged.antt =====
-- Theorems on the buffer of rules in gocode/yarax_scanner/yara_rule.go.
use cramc.Prelude.{
  ◌≡◌, refl, inl, inr, Bool, true, false, not, ◌&&◌, Option, none, some, List, [], ◌∷◌, ◌++◌, arith,
  if◌then◌else◌, Bool-cases, All, Bytes, codes,
}
use cramc.Prelude.Outcome.{ok}
use cramc.Disk.{Disk}
use cramc.Rules.{RuleEnv, Visit, WalkInfo, has_suffix, source_of, visit, raw_rules}

abbrev is_rule_file : Visit → Bool
is_rule_file v = elim v.cur_info [
  | none ↦ false
  | some i ↦ not i.is_dir && has_suffix i.name (codes ".yar")
]

-- The entry can be examined, and if it is a rule file it can be read.
abbrev pub IsReadable : RuleEnv → Disk → Visit → Type 0
IsReadable env disk v =
    ((i : WalkInfo) × (v.cur_info ≡ some i))
    × (is_rule_file v ≡ true
        → ((rules : Bytes) × (disk v.cur_path ≡ some rules)) × (env.read_error v.cur_path ≡ none))

abbrev content : Option Bytes → Bytes
content none = []
content (some rules) = rules

-- The rule files of a walk, each followed by a line break.
abbrev source_in : Disk → Visit → Bytes
source_in disk v = if is_rule_file v then content (disk v.cur_path) ++ b'\n' ∷ [] else []

abbrev pub rules_in : Disk → List Visit → Bytes
rules_in disk [] = []
rules_in disk (v ∷ vs) = source_in disk v ++ rules_in disk vs

source_of_rule :
    (env : RuleEnv) (disk : Disk) (cur_path : Bytes)
    → ((rules : Bytes) × (disk cur_path ≡ some rules)) × (env.read_error cur_path ≡ none)
    → source_of env disk cur_path (disk cur_path) (env.read_error cur_path)
      ≡ ok (content (disk cur_path) ++ b'\n' ∷ [])
source_of_rule env disk cur_path ((rules, there), readable) = rw there (rw readable)

visit-source_in :
    (env : RuleEnv) (disk : Disk) (cur_path : Bytes) (cur_info : Option WalkInfo)
    → IsReadable env disk (record { cur_path = cur_path; cur_info = cur_info })
    → visit env disk cur_path cur_info
      ≡ ok (source_in disk (record { cur_path = cur_path; cur_info = cur_info }))
visit-source_in env disk cur_path none ((i, e), r) = ground arith
visit-source_in env disk cur_path (some i) (there, r) = elim (Bool-cases i.is_dir) [
  | inl d ↦ rw d refl
  | inr n ↦ elim (Bool-cases (has_suffix i.name (codes ".yar"))) [
    | inl y ↦ rw n (rw y (source_of_rule env disk cur_path (r (rw n (rw y)))))
    | inr o ↦ rw n (rw o refl)
  ]
]

-- If every entry of the walk can be examined and every rule file be read, then what is compiled is
-- the contents of the files whose name ends in ".yar", in the order of the walk, each followed by
-- a line break.
pub raw_rules-rules_in :
    (env : RuleEnv) (disk : Disk) (vs : List Visit)
    → All (IsReadable env disk) vs
    → raw_rules env disk vs ≡ ok (rules_in disk vs)
unfolding raw_rules
raw_rules-rules_in env disk [] a = refl
raw_rules-rules_in env disk (v ∷ vs) (readable, more) =
    rw (visit-source_in env disk v.cur_path v.cur_info readable)
      (rw (raw_rules-rules_in env disk vs more))

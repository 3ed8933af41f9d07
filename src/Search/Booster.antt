-- ===== src/Search/Booster.antt =====
-- gocode/fileutils/filesearcher_booster_windows.go: `CheckProcessElevated` and
-- `IsDriveFileSystemNTFS`, whose values choose the searcher in gocode/cmd/aioagent/main.go. The
-- calls of Windows are parameters.
use cramc.Prelude.{
  ℕ, ◌+◌, ◌/◌, ◌%◌, ◌≡◌, refl, ap, ◌∙◌, inl, inr, Bool, true, false, not, ◌&&◌, Option, none, some,
  [], ◌∷◌, ◌++◌, arith, ltb, if◌then◌else◌, Bool-cases, Bytes, codes, text_eq, text_eq_iff,
}
use cramc.Prelude.Outcome.{
  GoError, Outcome, ok, err, panic, blocked, fallback_to_compatible_solution,
  insufficient_privilege,
}
use cramc.Search.Walk.{Found}
use cramc.Search.Stage.{Searched, exited, crashed, waiting, first_search, search_stage}

pub record BoosterEnv : Type 0 where
  pub current_user : Outcome (Unit {0})
  pub open_process_token : Option GoError
  pub token_is_elevated : Bool
  -- The name of the file system of the volume at a root path.
  pub get_volume_information : Bytes → Outcome Bytes

-- A value with its error, or `os.Exit`.
pub data Answer : Type 0 where
  answer : Bool → Option GoError → Answer
  exits : ℕ → Answer
  crashes waits : Answer

abbrev token_opened : Option GoError → Bool → Answer
token_opened (some e) elevated = exits 5
token_opened none true = answer true none
token_opened none false = answer false (some insufficient_privilege)

abbrev user_known : Outcome (Unit {0}) → Answer → Answer
user_known (ok u) next = next
user_known (err e) next = answer false (some e)
user_known panic next = crashes
user_known blocked next = waits

unfoldable pub check_process_elevated : BoosterEnv → Answer
check_process_elevated env =
    user_known env.current_user (token_opened env.open_process_token env.token_is_elevated)

-- `string(driveLetter)`: the byte as a code point, in UTF-8.
abbrev string_of_byte : ℕ → Bytes
string_of_byte c = if ltb c 128 then c ∷ [] else (192 + c / 64) ∷ (128 + c % 64) ∷ []

abbrev ntfs_named : Outcome Bytes → Answer
ntfs_named (ok name) =
    if text_eq name (codes "NTFS")
    then answer true none
    else answer false (some fallback_to_compatible_solution)
ntfs_named (err e) = answer false (some e)
ntfs_named panic = crashes
ntfs_named blocked = waits

-- `actionPath[0]` panics on an empty path.
unfoldable pub is_drive_file_system_ntfs : BoosterEnv → Bytes → Answer
is_drive_file_system_ntfs env [] = crashes
is_drive_file_system_ntfs env (drive_letter ∷ rest) =
    ntfs_named (env.get_volume_information (string_of_byte drive_letter ++ codes ":\\"))

-- `isElevated, _ :=` and `isNTFS, _ :=`
abbrev value_is_true : Answer → Bool
value_is_true (answer b e) = b
value_is_true _ = false

-- The search behind the two tests, unless one of them ends the program.
abbrev behind_tests : Answer → Answer → (Bool → Bool → Searched) → Searched
behind_tests (answer elevated e) (answer ntfs e') next = next elevated ntfs
behind_tests (answer elevated e) (exits code) next = exited code
behind_tests (answer elevated e) crashes next = crashed
behind_tests (answer elevated e) waits next = waiting
behind_tests (exits code) b next = exited code
behind_tests crashes b next = crashed
behind_tests waits b next = waiting

-- On Windows: the tests, then the search with the flags that they give.
abbrev pub booster_stage :
    BoosterEnv → Bytes → Bool → (Bytes → Outcome ℕ) → Outcome Found → Found → Searched
booster_stage env action_path no_priv on_disk mft walk =
    behind_tests (check_process_elevated env) (is_drive_file_system_ntfs env action_path)
      (λ elevated ntfs.
        search_stage
          (record {
            is_elevated = elevated;
            is_ntfs = ntfs;
            no_priv = no_priv;
            is_running_on_win = true;
          })
          on_disk mft walk)

behind_tests_same :
    (a b : Answer) (f g : Bool → Bool → Searched)
    → ((elevated ntfs : Bool)
        → value_is_true a ≡ elevated
        → value_is_true b ≡ ntfs
        → f elevated ntfs ≡ g elevated ntfs)
    → behind_tests a b f ≡ behind_tests a b g
behind_tests_same (answer elevated e) (answer ntfs e') f g k = k elevated ntfs refl refl
behind_tests_same (answer elevated e) (exits code) f g k = refl
behind_tests_same (answer elevated e) crashes f g k = refl
behind_tests_same (answer elevated e) waits f g k = refl
behind_tests_same (exits code) b f g k = refl
behind_tests_same crashes b f g k = refl
behind_tests_same waits b f g k = refl

-- What has to be so for the file table to be read: an elevated process, a volume named NTFS, and no
-- flag against it.
abbrev pub MayReadTable : BoosterEnv → Bytes → Bool → Type 0
MayReadTable env action_path no_priv =
    (env.token_is_elevated ≡ true)
    × ((letter : ℕ) × (rest : Bytes) × (action_path ≡ letter ∷ rest)
        × (env.get_volume_information (string_of_byte letter ++ codes ":\\") ≡ ok (codes "NTFS")))
    × (no_priv ≡ false)

token_opened-true :
    (e : Option GoError) (b : Bool) → value_is_true (token_opened e b) ≡ true → b ≡ true
token_opened-true (some e) b h = cc
token_opened-true none true h = refl
token_opened-true none false h = cc

user_known-true :
    (u : Outcome (Unit {0})) (a : Answer)
    → value_is_true (user_known u a) ≡ true
    → value_is_true a ≡ true
user_known-true (ok u) a h = h
user_known-true (err e) a h = cc
user_known-true panic a h = cc
user_known-true blocked a h = cc

ntfs_named-true : (o : Outcome Bytes) → value_is_true (ntfs_named o) ≡ true → o ≡ ok (codes "NTFS")
ntfs_named-true (ok name) h = elim (Bool-cases (text_eq name (codes "NTFS"))) [
  | inl t ↦ ap ok ((text_eq_iff name (codes "NTFS")).0 t)
  | inr f ↦ ground (arith, f, h)
]
ntfs_named-true (err e) h = cc
ntfs_named-true panic h = cc
ntfs_named-true blocked h = cc

is_drive_file_system_ntfs-true :
    (env : BoosterEnv) (action_path : Bytes)
    → value_is_true (is_drive_file_system_ntfs env action_path) ≡ true
    → (letter : ℕ) × (rest : Bytes) × (action_path ≡ letter ∷ rest)
      × (env.get_volume_information (string_of_byte letter ++ codes ":\\") ≡ ok (codes "NTFS"))
unfolding is_drive_file_system_ntfs
is_drive_file_system_ntfs-true env [] h = cc
is_drive_file_system_ntfs-true env (letter ∷ rest) h = (
  letter,
  rest,
  refl,
  ntfs_named-true (env.get_volume_information (string_of_byte letter ++ codes ":\\")) h,
)

and-true : (a b c : Bool) → a && b && not c ≡ true → (a ≡ true) × (b ≡ true) × (c ≡ false)
and-true a b c h = ground arith

-- On Windows, where the tests of the privileges and of the drive may also end the program: the raw
-- file table has no influence on the search unless the process is elevated, the
-- volume of the first letter of the action path is named NTFS, and the flag against it is not set.
pub search_stage_without_table :
    (env : BoosterEnv) (action_path : Bytes) (no_priv : Bool) (on_disk : Bytes → Outcome ℕ)
    (mft mft' : Outcome Found) (walk : Found)
    → (MayReadTable env action_path no_priv → ⊥)
    → booster_stage env action_path no_priv on_disk mft walk
      ≡ booster_stage env action_path no_priv on_disk mft' walk
unfolding search_stage first_search check_process_elevated
search_stage_without_table env action_path no_priv on_disk mft mft' walk no_table =
    behind_tests_same (check_process_elevated env) (is_drive_file_system_ntfs env action_path) _ _
      (λ elevated ntfs e v. elim (Bool-cases (elevated && ntfs && not no_priv)) [
        | inl t ↦
            let (a, b, c) = and-true elevated ntfs no_priv t in
            absurd (
              no_table (
                token_opened-true env.open_process_token env.token_is_elevated (
                    user_known-true env.current_user
                      (token_opened env.open_process_token env.token_is_elevated) (e ∙ a)),
                is_drive_file_system_ntfs-true env action_path (v ∙ b),
                c,
              ))
        | inr f ↦ rw f refl
      ])

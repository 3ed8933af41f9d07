-- ===== src/Release.antt =====
-- gocode/cmd/devreleaser/main.go, the tool that compiles the rules and encrypts the files of a
-- release, with `CheckFileLogicalExists` of gocode/fileutils/filesearcher.go. It changes the disk;
-- every error ends in a panic.
pub mod Handover
pub mod Recompile
use cramc.Prelude.{
  ℕ, zero, suc, ◌+◌, ◌-◌, ◌*◌, ◌/◌, ◌%◌, ◌^◌, ◌≤◌, ◌<◌, String, ◌≡◌, refl, sym, ap, ◌∙◌, ◌≢◌, ◌↔◌,
  ◌⊎◌, inl, inr, Bool, true, false, not, ◌&&◌, ◌||◌, Option, none, some, List, [], ◌∷◌, ◌++◌, map,
  append-nil, append_assoc, arith, ltb, leb, ◌==◌, if◌then◌else◌, Bool-cases, Option-cases, length,
  take, drop, replicate, any, All, length-append, length-drop, take-append, drop-append, length-map,
  get_elem?, set, erase_at, get_elem?-append, set-append, erase_at-append, get_elem?-length, Bytes,
  codes, text_eq, text_eq_iff, text_eq_refl, text_eq-append, text_ne,
}
use cramc.Prelude.Outcome.{GoError, Outcome, ok, err, panic, blocked, ◌>>=◌, ◌>>◌}
use cramc.Disk.{Disk, put}
use cramc.Crypto.{Aead, Slice, xchacha20_encrypt, xchacha20_decrypt}
use cramc.Crypto.Password.{hex_encryption_password}
use cramc.Rules.{RuleEnv, merge_and_compile2unified_rules}

pub record ReleaseFlags : Type 0 where
  pub enc : Bool
  pub compile : Bool
  pub dec : Bool
  pub in_file : Bytes
  pub out_file : Bytes

-- The calls of the operating system and of encoding/hex; `rand` fills the nonce, and `spare` is
-- what the array of a file that is read holds behind it. A file that is not there cannot be
-- examined.
pub record ReleaseEnv : Type 0 where
  pub stat_error : Bytes → Option GoError
  pub read_error : Bytes → Option GoError
  pub create_error : Bytes → Option GoError
  pub write_error : Bytes → Option GoError
  pub mkdir_error : Option GoError
  pub remove_error : Option GoError
  pub decode_string : Bytes → Outcome Bytes
  pub rand : Outcome Bytes
  pub spare : Bytes
  -- What is on the disk of a write that fails.
  pub cut : Bytes → Bytes

abbrev is_file : Option Bytes → Option GoError → Bool
is_file (some content) none = true
is_file _ _ = false

-- `CheckFileLogicalExists`; a directory holds no bytes.
unfoldable pub check_file_logical_exists : (Bytes → Option GoError) → Bytes → Disk → Bool
check_file_logical_exists stat_error filename disk =
    if text_eq filename [] then false else is_file (disk filename) (stat_error filename)

abbrev pub yrules_dir : Bytes
yrules_dir = codes "yrules/"

abbrev pub unified_yar : Bytes
unified_yar = codes "yrules/bin/unified.yar"

module _ (aead : Aead) (env : ReleaseEnv) where
  -- The switch between the two directions, behind the decoding of the password.
  unfoldable pub converted : ReleaseFlags → Bytes → Outcome Bytes
  converted flags in_data = do
    passwd ← env.decode_string hex_encryption_password
    if flags.enc
        then xchacha20_encrypt aead env.rand passwd in_data
        else xchacha20_decrypt aead passwd (record { bytes = in_data; spare = env.spare })

  abbrev pub out_written : Bytes → Outcome Bytes → Option GoError → Disk → Outcome (Unit {0}) × Disk
  out_written out_file (ok out_d) none disk = (ok tt, put out_file (some out_d) disk)
  out_written out_file (ok out_d) (some e) disk = (panic, put out_file (some (env.cut out_d)) disk)
  out_written out_file (err e) w disk = (panic, disk)
  out_written out_file panic w disk = (panic, disk)
  out_written out_file blocked w disk = (blocked, disk)

  -- The output is created before the password is decoded.
  abbrev out_created : ReleaseFlags → Bytes → Option GoError → Disk → Outcome (Unit {0}) × Disk
  out_created flags in_data (some e) disk = (panic, disk)
  out_created flags in_data none disk =
      out_written flags.out_file (converted flags in_data) (env.write_error flags.out_file)
        (put flags.out_file (some []) disk)

  abbrev in_read : ReleaseFlags → Option Bytes → Option GoError → Disk → Outcome (Unit {0}) × Disk
  in_read flags (some in_data) none disk =
      out_created flags in_data (env.create_error flags.out_file) disk
  in_read flags _ _ disk = (panic, disk)

  unfoldable pub convert : ReleaseFlags → Disk → Outcome (Unit {0}) × Disk
  unfolding check_file_logical_exists converted
  convert flags disk =
      if not (check_file_logical_exists env.stat_error flags.in_file disk)
      then (panic, disk)
      else in_read flags (disk flags.in_file) (env.read_error flags.in_file) disk

  -- `os.Remove("yrules/bin/unified.yar")`, whose error is dropped.
  abbrev pub removed : Option GoError → Disk → Disk
  removed none disk = put unified_yar none disk
  removed (some e) disk = disk

  abbrev pub compiled : RuleEnv → Option GoError → Disk → Outcome (Unit {0}) × Disk
  compiled rules (some e) disk = (panic, disk)
  compiled rules none disk =
      merge_and_compile2unified_rules rules yrules_dir unified_yar (removed env.remove_error disk)

  -- `main`
  unfoldable pub release : RuleEnv → ReleaseFlags → Disk → Outcome (Unit {0}) × Disk
  unfolding convert
  release rules flags disk =
      if flags.compile
      then compiled rules env.mkdir_error disk
      else if flags.dec && flags.enc
      then (panic, disk)
      else if flags.dec || flags.enc
      then convert flags disk
      else (ok tt, disk)

-- ===== src/Backup.antt =====
-- gocode/sanitizer_ole/filebak_windows.go: `gzBakFile` and `renameFileAndSave`. The gzip writer of
-- klauspost/compress and the errors of the file system are parameters.
pub mod Restore
pub mod Twice
use cramc.Prelude.{
  ℕ, zero, suc, ◌+◌, ◌-◌, ◌*◌, ◌/◌, ◌%◌, ◌^◌, ◌≤◌, ◌<◌, String, ◌≡◌, refl, sym, ap, ◌∙◌, ◌≢◌, ◌↔◌,
  ◌⊎◌, inl, inr, Bool, true, false, not, ◌&&◌, ◌||◌, Option, none, some, List, [], ◌∷◌, ◌++◌, map,
  append-nil, append_assoc, arith, ltb, leb, ◌==◌, if◌then◌else◌, Bool-cases, Option-cases, length,
  take, drop, replicate, any, All, length-append, length-drop, take-append, drop-append, length-map,
  get_elem?, set, erase_at, get_elem?-append, set-append, erase_at-append, get_elem?-length, Bytes,
  codes, text_eq, text_eq_iff, text_eq_refl, text_eq-append, text_ne,
}
use cramc.Prelude.Outcome.{GoError, Outcome, ok, err, panic, blocked, ◌>>=◌, ◌>>◌}
use cramc.Disk.{Disk, put, rename}

-- `gzip` is the stream that a writer leaves which is closed without an error, and `cut` what is on
-- the disk of it otherwise. A file that is not there cannot be opened for reading.
pub record BakEnv : Type 0 where
  pub create_error : Bytes → Option GoError
  pub open_error : Bytes → GoError
  pub writer_error : Option GoError
  pub copy_error : Bytes → Option GoError
  pub close_error : Bytes → Option GoError
  pub gzip : Bytes → Bytes
  pub cut : Bytes → Bytes

abbrev pub bak_path : Bytes → Bytes
bak_path f_path = f_path ++ codes ".gz.bak"

-- A path element ends at a slash or a backslash.
abbrev is_separator : ℕ → Bool
is_separator c = c == b'/' || c == b'\\'

-- `filepath.Join(filepath.Dir(fPath), "G-"+filepath.Base(fPath))`, on a clean absolute path: the
-- mark stands behind the last separator.
unfoldable pub marked_path : Bytes → Bytes
marked_path [] = codes "G-"
marked_path (c ∷ s) =
    let deeper = c ∷ marked_path s in
    if any is_separator (c ∷ s) then deeper else codes "G-" ++ c ∷ s

module _ (env : BakEnv) where
  -- From the copy on: the deferred `Flush` and `Close` of the writer drop their errors.
  abbrev copied : Bytes → Bytes → Option GoError → Option GoError → Disk → Option GoError × Disk
  copied f_path content (some e) closed disk =
      (some e, put (bak_path f_path) (some (env.cut content)) disk)
  copied f_path content none (some e) disk =
      (none, put (bak_path f_path) (some (env.cut content)) disk)
  copied f_path content none none disk =
      (none, put (bak_path f_path) (some (env.gzip content)) disk)

  abbrev written : Bytes → Bytes → Option GoError → Disk → Option GoError × Disk
  written f_path content none disk =
      copied f_path content (env.copy_error f_path) (env.close_error f_path) disk
  written f_path content (some e) disk = (some e, disk)

  -- The original is opened behind the backup, which is truncated by then.
  abbrev opened : Bytes → Option Bytes → Disk → Option GoError × Disk
  opened f_path none disk = (some (env.open_error f_path), disk)
  opened f_path (some content) disk = written f_path content env.writer_error disk

  abbrev created : Bytes → Option GoError → Disk → Option GoError × Disk
  created f_path (some e) disk = (some e, disk)
  created f_path none disk =
      let disk' = put (bak_path f_path) (some []) disk in opened f_path (disk' f_path) disk'

  -- `gzBakFile`
  unfoldable pub gz_bak_file : Bytes → Disk → Option GoError × Disk
  gz_bak_file f_path disk = created f_path (env.create_error (bak_path f_path)) disk

  abbrev renamed : Bytes → Option Bytes → Disk → Option GoError × Disk
  renamed f_path none disk = (some (env.open_error f_path), disk)
  renamed f_path (some content) disk = (none, rename f_path (marked_path f_path) disk)

  -- `renameFileAndSave`; `denied` is an error of `os.Rename` on a file that is there.
  unfoldable pub rename_file_and_save : Option GoError → Bytes → Disk → Option GoError × Disk
  unfolding marked_path rename
  rename_file_and_save (some denied) f_path disk = (some denied, disk)
  rename_file_and_save none f_path disk = renamed f_path (disk f_path) disk

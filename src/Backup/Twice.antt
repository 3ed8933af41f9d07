-- ===== src/Backup/Twice.antt =====
-- Theorems on a `gzBakFile` (gocode/sanitizer_ole/filebak_windows.go) behind the renaming of the file.
use cramc.Prelude.{
  ℕ, ◌+◌, ◌≡◌, refl, sym, ap, ◌≢◌, Option, none, some, [], ◌∷◌, arith, length, length-append, Bytes,
  codes,
}
use cramc.Prelude.Outcome.{GoError}
use cramc.Disk.{rename_other, Disk, put, put_same, put_other, rename}
use cramc.Backup.{BakEnv, bak_path, marked_path, gz_bak_file, rename_file_and_save}
use cramc.Backup.Restore.{bak_path-ne}

length-marked_path : (f_path : Bytes) → length (marked_path f_path) ≡ length f_path + 2
unfolding marked_path
length-marked_path [] = refl
length-marked_path (c ∷ s) = ground (arith, length-marked_path s)

rename_old : (old new : Bytes) (disk : Disk) → rename old new disk old ≡ none
unfolding rename
rename_old old new disk = put_same (put new (disk old) disk) old none

marked_path-ne-bak_path : (f_path : Bytes) → marked_path f_path ≢ bak_path f_path
marked_path-ne-bak_path f_path e = absurd (
    omega (
      arith,
      ap (length {A = ℕ}) e,
      length-marked_path f_path,
      length-append f_path (codes ".gz.bak"),
    ))

rename_there :
    (env : BakEnv) (f_path content : Bytes) (disk : Disk)
    → disk f_path ≡ some content
    → rename_file_and_save env none f_path disk ≡ (none, rename f_path (marked_path f_path) disk)
unfolding rename_file_and_save
rename_there env f_path content disk e = simp e

-- The backup of a file that is not there.
gz_bak_file_gone :
    (env : BakEnv) (f_path : Bytes) (disk : Disk)
    → env.create_error (bak_path f_path) ≡ none
    → disk f_path ≡ none
    → gz_bak_file env f_path disk
      ≡ (some (env.open_error f_path), put (bak_path f_path) (some []) disk)
unfolding gz_bak_file
gz_bak_file_gone env f_path disk c gone =
    simp (c, put_other disk (bak_path f_path) (some []) f_path (bak_path-ne f_path), gone)

-- A document that is renamed, with whatever content and backup it has by then: the renaming leaves
-- the backup alone, but a backup of the path that is asked for after it truncates that backup
-- before it finds that the document is gone, and fails.
pub gz_bak_file-renamed :
    (env : BakEnv) (f_path content : Bytes) (disk : Disk)
    → env.create_error (bak_path f_path) ≡ none
    → disk f_path ≡ some content
    → let disk' = (rename_file_and_save env none f_path disk).1 in
      let (e, disk'') = gz_bak_file env f_path disk' in
      (disk' (bak_path f_path) ≡ disk (bak_path f_path))
      × (e ≡ some (env.open_error f_path))
      × (disk'' (bak_path f_path) ≡ some [])
gz_bak_file-renamed env f_path content disk creates there =
    let disk' = (rename_file_and_save env none f_path disk).1 in
    let state : disk' ≡ rename f_path (marked_path f_path) disk =
      ap (λ (r : Option GoError × Disk). r.1) (rename_there env f_path content disk there) in
    let gone : disk' f_path ≡ none = rw state (rename_old f_path (marked_path f_path) disk) in
    (
      rw state (
          rename_other f_path (marked_path f_path) disk (bak_path f_path)
            (λ e. bak_path-ne f_path (sym e)) (λ e. marked_path-ne-bak_path f_path (sym e))),
      rw (gz_bak_file_gone env f_path disk' creates gone),
      rw (gz_bak_file_gone env f_path disk' creates gone)
          (put_same disk' (bak_path f_path) (some [])),
    )

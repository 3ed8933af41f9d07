-- ===== src/Backup/Restore.antt =====
-- Theorems on `gzBakFile` (gocode/sanitizer_ole/filebak_windows.go) for a file that is there.
use cramc.Prelude.{
  ℕ, ◌≡◌, refl, ap, ◌∙◌, ◌≢◌, inl, inr, Option, none, some, [], arith, Option-cases, length,
  length-append, Bytes, codes,
}
use cramc.Prelude.Outcome.{GoError}
use cramc.Disk.{Disk, put, put_same, put_other}
use cramc.Backup.{BakEnv, bak_path, gz_bak_file}

-- The path of a backup is longer than that of its file.
pub bak_path-ne : (f_path : Bytes) → f_path ≢ bak_path f_path
bak_path-ne f_path e =
    absurd (omega (arith, ap (length {A = ℕ}) e, length-append f_path (codes ".gz.bak")))

-- No call fails before the deferred ones.
pub record IsWritable (env : BakEnv) (f_path : Bytes) : Type 0 where
  pub creates : env.create_error (bak_path f_path) ≡ none
  pub compresses : env.writer_error ≡ none
  pub copies : env.copy_error f_path ≡ none

abbrev pub stream : BakEnv → Option GoError → Bytes → Bytes
stream env none content = env.gzip content
stream env (some e) content = env.cut content

-- What the backup of a file that is there leaves on the disk.
pub gz_bak_file-stream :
    (env : BakEnv) (f_path content : Bytes) (disk : Disk)
    → IsWritable env f_path
    → disk f_path ≡ some content
    → gz_bak_file env f_path disk ≡ (
      none,
      put
          (bak_path f_path)
          (some (stream env (env.close_error f_path) content))
          (put (bak_path f_path) (some []) disk),
    )
unfolding gz_bak_file
gz_bak_file-stream env f_path content disk w there =
    simp
      (
        w.creates,
        put_other disk (bak_path f_path) (some []) f_path (bak_path-ne f_path),
        there,
        w.compresses,
        w.copies,
      )
      (elim (Option-cases (env.close_error f_path)) [ inl n ↦ simp n | inr (e, s) ↦ simp s ])

-- A backup that is written without an error and closed without one can be unpacked to the content
-- that the file has, is reported as a success, and changes nothing else on the disk, the file
-- itself included.
pub gz_bak_file_restores :
    (env : BakEnv) (gunzip : Bytes → Option Bytes) (f_path content q : Bytes) (disk : Disk)
    → ((c : Bytes) → gunzip (env.gzip c) ≡ some c)
    → IsWritable env f_path
    → env.close_error f_path ≡ none
    → disk f_path ≡ some content
    → q ≢ bak_path f_path
    → let (e, disk') = gz_bak_file env f_path disk in
      (e ≡ none)
      × ((packed : Bytes) × (disk' (bak_path f_path) ≡ some packed)
          × (gunzip packed ≡ some content))
      × (disk' q ≡ disk q)
gz_bak_file_restores env gunzip f_path content q disk unpacks w closes there other =
    rw (gz_bak_file-stream env f_path content disk w there) (
      rw closes (
        refl,
        (
          env.gzip content,
          put_same (put (bak_path f_path) (some []) disk) (bak_path f_path)
              (some (env.gzip content)),
          unpacks content,
        ),
        put_other _ (bak_path f_path) (some (env.gzip content)) q other
            ∙ put_other disk (bak_path f_path) (some []) q other,
      ))

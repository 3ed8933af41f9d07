-- ===== src/Tests/Backup.antt =====
-- A disk with one workbook, and a packer that marks what it packs.
use cramc.Prelude.{
  ℕ, ◌≡◌, refl, ap, Option, none, some, [], ◌∷◌, arith, if◌then◌else◌, length, Bytes, codes,
  text_eq,
}
use cramc.Prelude.Outcome.{unknown_internal_error}
use cramc.Disk.{Disk, put}
use cramc.Backup.{BakEnv, bak_path, gz_bak_file, rename_file_and_save, marked_path}
use cramc.Backup.Restore.{IsWritable, gz_bak_file_restores}
use cramc.Backup.Twice.{gz_bak_file-renamed}

abbrev gunzip : Bytes → Option Bytes
gunzip [] = none
gunzip (b ∷ content) = some content

abbrev env : BakEnv
env = record {
  create_error = λ p. none;
  open_error = λ p. unknown_internal_error;
  writer_error = none;
  copy_error = λ p. none;
  close_error = λ p. none;
  gzip = λ content. b'z' ∷ content;
  cut = λ content. [];
}

abbrev book : Bytes
book = codes "C:\\d\\book.xls"

abbrev disk : Disk
disk q = if text_eq q book then some (codes "virus") else none

env-IsWritable : IsWritable env book
env-IsWritable = record { creates = refl; compresses = refl; copies = refl }

there : disk book ≡ some (codes "virus")
unfolding text_eq
there = refl

gz_bak_file_restores_example :
    let (e, disk') = gz_bak_file env book disk in
    (e ≡ none)
    × ((packed : Bytes) × (disk' (bak_path book) ≡ some packed)
        × (gunzip packed ≡ some (codes "virus")))
    × (disk' book ≡ disk book)
gz_bak_file_restores_example =
    gz_bak_file_restores env gunzip book (codes "virus") book disk (λ c. refl) env-IsWritable refl
      there (λ e. absurd (omega (arith, ap (length {A = ℕ}) e)))

abbrev backed : Disk
backed = (gz_bak_file env book disk).1

still_there : backed book ≡ some (codes "virus")
unfolding gz_bak_file text_eq put
still_there = refl

gz_bak_file-renamed_example :
    let disk' = (rename_file_and_save env none book backed).1 in
    let (e, disk'') = gz_bak_file env book disk' in
    (disk' (bak_path book) ≡ backed (bak_path book))
    × (e ≡ some (env.open_error book))
    × (disk'' (bak_path book) ≡ some [])
gz_bak_file-renamed_example = gz_bak_file-renamed env book (codes "virus") backed refl still_there

-- The mark stands before the name of the file.
marked_book : marked_path book ≡ codes "C:\\d\\G-book.xls"
unfolding marked_path
marked_book = refl

-- ===== src/Search/OnDisk.antt =====
-- gocode/fileutils/fileattr_retr_windows.go and fileattr_retr_other.go: whether the content of a
-- file is on the local disk. `FileInfo` is what `os.Stat` returns, and the attributes are the bit
-- set of `GetFileAttributes`, an environment that is a parameter.
use cramc.Prelude.{
  ℕ, ◌/◌, ◌%◌, ◌^◌, Bool, false, ◌||◌, List, [], ◌∷◌, ltb, ◌==◌, if◌then◌else◌, Bytes,
}
use cramc.Prelude.Outcome.{
  Outcome, ok, err, panic, blocked, ◌>>=◌, file_exists_on_cloud_only, invalid_input,
}

pub record FileInfo : Type 0 where
  pub size : ℕ
  pub is_dir : Bool

-- `attrs & (1 << k) != 0`
unfoldable pub has_bit : ℕ → ℕ → Bool
has_bit attrs k = attrs / 2 ^ k % 2 == 1

-- FILE_ATTRIBUTE_OFFLINE 0x1000, FILE_ATTRIBUTE_RECALL_ON_DATA_ACCESS 0x400000 and
-- WINDOWS_FILE_ATTRIBUTE_UNPINNED 0x100000, as the places of their bits.
abbrev pub offline_bit : ℕ
offline_bit = 12

abbrev pub recall_bit : ℕ
recall_bit = 22

abbrev pub unpinned_bit : ℕ
unpinned_bit = 20

-- On Windows: the logical size of a file whose content is local.
unfoldable pub check_file_on_disk_size : Outcome FileInfo → Outcome ℕ → Outcome ℕ
check_file_on_disk_size stat attributes = do
  info ← stat
  attrs ← attributes
  if has_bit attrs offline_bit || has_bit attrs recall_bit || has_bit attrs unpinned_bit
      then err file_exists_on_cloud_only
      else ok info.size

-- On other systems.
unfoldable pub check_file_on_disk_size_other : Outcome FileInfo → Outcome ℕ
check_file_on_disk_size_other stat = do
  info ← stat
  if info.is_dir then err invalid_input else ok info.size

-- The test of `searchConsumer` in gocode/cmd/aioagent/main.go.
unfoldable pub is_local : Outcome ℕ → Bool
is_local (ok size) = ltb 0 size
is_local (err e) = false
is_local panic = false
is_local blocked = false

-- `searchConsumer`: the found paths that are kept for the scanner, in order.
unfoldable pub search_consumer : (Bytes → Outcome ℕ) → List Bytes → List Bytes
unfolding is_local
search_consumer on_disk [] = []
search_consumer on_disk (item ∷ items) =
    if is_local (on_disk item)
    then item ∷ search_consumer on_disk items
    else search_consumer on_disk items

-- ===== src/Search.antt =====
-- gocode/fileutils: looking for the files to scan. The channel of found paths is the list of what
-- was sent on it.
pub mod OnDisk
pub mod Walk
pub mod Mft
pub mod Agreement
pub mod Stage
pub mod Booster
use cramc.Prelude.{Bool, ◌||◌, List, any, Bytes, codes, text_eq}
use cramc.Paths.{path_ext, contains}

-- `slices.Contains` on strings.
unfoldable pub slices_contains : List Bytes → Bytes → Bool
slices_contains xs x = any (λ y. text_eq y x) xs

abbrev pub xlstart : Bytes
xlstart = codes "AppData/Roaming/Microsoft/Excel/XLSTART"

-- The test that `matchF` of both searchers makes of a path.
unfoldable pub is_target : List Bytes → Bytes → Bool
is_target allowed_exts p = slices_contains allowed_exts (path_ext p) || contains p xlstart

-- ===== src/Tests/Search.antt =====
-- A tree with a target and a file that is none, in a folder that cannot be read.
use mathlib.Core.List.{Memᴰ}
use mathlib.Core.List.Memᴰ
use cramc.Prelude.{◌≡◌, refl, none, some, List, [], ◌∷◌, map, arith, length, Bytes, codes, text_eq}
use cramc.Prelude.Outcome.{ok, insufficient_privilege}
use cramc.Paths.{replace_byte, path_ext, contains}
use cramc.Search.{is_target, slices_contains}
use cramc.Search.Walk.{
  walk_nodes, walk_fn, Found, Nodes, nil, cons, file, dir, general_walkthrough_search,
}
use cramc.Search.Walk.Complete.{files, targets, under, general_walkthrough_search-targets}
use cramc.Search.Mft.{MftRow, is_disk_letter, extract_and_parse_mft_then_search}
use cramc.Search.Agreement.{row_of, IsDrivePath, searchers_agree}

abbrev tree : Nodes
tree =
    cons (file (codes "a.xls"))
      (cons (dir (codes "s") (some insufficient_privilege) (cons (file (codes "b.txt")) nil)) nil)

abbrev exts : List Bytes
exts = codes ".xls" ∷ []

abbrev users : Bytes
users = codes "\\Users"

general_walkthrough_search-targets_example :
    let found = general_walkthrough_search (b'C' ∷ b':' ∷ users) exts none none tree in
    (found.sent
      ≡ under (replace_byte b'\\' b'/' (b'C' ∷ b':' ∷ users)) (targets exts (files [] tree)))
    × (found.counter ≡ length found.sent)
general_walkthrough_search-targets_example =
    general_walkthrough_search-targets (b'C' ∷ b':' ∷ users) exts none tree

users-IsDrivePath : IsDrivePath b'C' users
unfolding is_disk_letter
users-IsDrivePath = record { disk_letter = refl; no_colon = ground arith }

abbrev rows : List MftRow
rows = map (row_of (codes "/Users")) (files [] tree)

a_xls_found :
    Memᴰ
      (codes "C:/Users/a.xls")
      (general_walkthrough_search (b'C' ∷ b':' ∷ users) exts none none tree).sent
unfolding general_walkthrough_search walk_nodes walk_fn is_target slices_contains text_eq path_ext
    contains replace_byte
a_xls_found = Memᴰ.head refl

searchers_agree_example :
    (found : Found) × (extract_and_parse_mft_then_search (b'C' ∷ b':' ∷ users) exts (ok rows)
      ≡ ok found)
    × Memᴰ (codes "C:/Users/a.xls") found.sent
unfolding replace_byte
searchers_agree_example =
    searchers_agree b'C' users exts rows tree none (codes "C:/Users/a.xls") users-IsDrivePath
      (λ p m. Memᴰ.map (row_of (codes "/Users")) m) a_xls_found

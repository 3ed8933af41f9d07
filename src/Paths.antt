-- ===== src/Paths.antt =====
-- What the program uses of Go's packages path and strings, on bytes.
pub mod Extension
pub mod Substring
use mathlib.Core.List.{reverse}
use cramc.Prelude.{ℕ, Bool, true, false, ◌&&◌, ◌||◌, List, [], ◌∷◌, ◌==◌, if◌then◌else◌, Bytes}

-- `path.Ext`: the loop runs from the last byte back to a dot, and stops at a slash. `back` is the
-- part of the path that is left to look at, last byte first, and `ext` the bytes behind it.
unfoldable pub ext_from : Bytes → Bytes → Bytes
ext_from [] ext = []
ext_from (c ∷ back) ext =
    let more = ext_from back (c ∷ ext) in
    if c == b'/' then [] else if c == b'.' then c ∷ ext else more

unfoldable pub path_ext : Bytes → Bytes
unfolding ext_from
path_ext p = ext_from (reverse p) []

-- `strings.HasPrefix`.
unfoldable pub has_prefix : Bytes → Bytes → Bool
has_prefix s [] = true
has_prefix [] (p ∷ ps) = false
has_prefix (c ∷ s) (p ∷ ps) = c == p && has_prefix s ps

-- `strings.Contains`.
unfoldable pub contains : Bytes → Bytes → Bool
unfolding has_prefix
contains [] sub = has_prefix [] sub
contains (c ∷ s) sub = has_prefix (c ∷ s) sub || contains s sub

-- `strings.ReplaceAll` of one byte by another.
unfoldable pub replace_byte : ℕ → ℕ → Bytes → Bytes
replace_byte a b [] = []
replace_byte a b (c ∷ s) = (if c == a then b else c) ∷ replace_byte a b s

abbrev cons_head : ℕ → List Bytes → List Bytes
cons_head c [] = (c ∷ []) ∷ []
cons_head c (x ∷ xs) = (c ∷ x) ∷ xs

-- `strings.Split` at a separator of one byte.
unfoldable pub split_on : ℕ → Bytes → List Bytes
split_on sep [] = [] ∷ []
split_on sep (c ∷ s) = if c == sep then [] ∷ split_on sep s else cons_head c (split_on sep s)

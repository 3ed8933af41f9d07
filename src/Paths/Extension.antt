-- ===== src/Paths/Extension.antt =====
-- Lemmas on `path.Ext`.
use mathlib.Core.List.{reverse, reverse-append}
use cramc.Prelude.{◌≡◌, refl, [], ◌∷◌, ◌++◌, append_assoc, arith, Bytes}
use cramc.Paths.{ext_from, path_ext}

-- A slash gives what the end of the path gives.
ext_from-slash : (a b ext : Bytes) → ext_from (a ++ b'/' ∷ b) ext ≡ ext_from a ext
unfolding ext_from
ext_from-slash [] b ext = refl
ext_from-slash (c ∷ a) b ext = ground (arith, ext_from-slash a b (c ∷ ext))

-- Behind a slash, the extension is that of what follows.
pub path_ext-append : (dir p : Bytes) → path_ext (dir ++ b'/' ∷ p) ≡ path_ext p
unfolding path_ext
path_ext-append dir p =
    rw (reverse-append dir (b'/' ∷ p)) (
      rw (reverse-append (b'/' ∷ []) p, append_assoc) (ext_from-slash (reverse p) (reverse dir) []))

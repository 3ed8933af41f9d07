-- ===== src/Paths/Substring.antt =====
-- Lemmas on `strings.HasPrefix` and `strings.Contains`.
use cramc.Prelude.{◌≡◌, refl, true, [], ◌∷◌, ◌++◌, arith, Bytes}
use cramc.Paths.{has_prefix, contains}

pub has_prefix-append : (p s : Bytes) → has_prefix (p ++ s) p ≡ true
unfolding has_prefix
has_prefix-append [] s = refl
has_prefix-append (c ∷ p) s = ground (arith, has_prefix-append p s)

-- What a text contains, every longer text that ends in it contains.
pub contains-append : (a s sub : Bytes) → contains s sub ≡ true → contains (a ++ s) sub ≡ true
unfolding contains
contains-append [] s sub h = h
contains-append (c ∷ a) s sub h = ground (arith, contains-append a s sub h)

-- ===== src/Crypto/Buffers.antt =====
-- `make([]byte, n)` and `copy`, as gocode/cryptutils/xchacha20.go uses them.
use native.Mathlib.Nat.{sub-zero, suc-sub-suc}
use cramc.Prelude.{
  ℕ, zero, suc, ◌-◌, ◌≤◌, ◌≡◌, refl, sym, [], ◌∷◌, ◌++◌, append_assoc, arith, length, take, drop,
  replicate, take-append, drop-append, Bytes, ap,
}

abbrev pub make : ℕ → Bytes
make n = replicate n 0

-- `copy(dst, src)`: as many bytes as both have.
unfoldable pub copy : Bytes → Bytes → Bytes
copy dst [] = dst
copy [] (s ∷ src) = []
copy (d ∷ dst) (s ∷ src) = s ∷ copy dst src

-- `copy(dst[n:], src)`
unfoldable pub copy_at : ℕ → Bytes → Bytes → Bytes
unfolding copy
copy_at n dst src = take n dst ++ copy (drop n dst) src

pub copy-make :
    (src : Bytes) (n : ℕ) → length src ≤ n → copy (make n) src ≡ src ++ make (n - length src)
unfolding copy
copy-make [] n h = rw sub-zero
copy-make (s ∷ src) zero h = absurd (omega arith)
copy-make (s ∷ src) (suc n) h = rw (copy-make src n (omega arith)) (rw suc-sub-suc)

-- Filling the next part of a buffer.
pub copy_at-make :
    (front src : Bytes) (n k : ℕ)
    → length front ≡ k
    → length src ≤ n
    → copy_at k (front ++ make n) src ≡ (front ++ src) ++ make (n - length src)
unfolding copy_at
copy_at-make front src n k e h =
    rw (take-append front (make n) k e, drop-append front (make n) k e)
      (rw (copy-make src n h) (sym (append_assoc front src (make (n - length src)))))

-- A buffer of the right length becomes the text.
pub copy-make_self : (src : Bytes) → copy (make (length src)) src ≡ src
unfolding copy
copy-make_self [] = refl
copy-make_self (s ∷ src) = ap (◌∷◌ s) (copy-make_self src)

pub length-copy : (dst src : Bytes) → length (copy dst src) ≡ length dst
unfolding copy
length-copy dst [] = refl
length-copy [] (s ∷ src) = refl
length-copy (d ∷ dst) (s ∷ src) = ap suc (length-copy dst src)

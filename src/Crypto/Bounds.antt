-- ===== src/Crypto/Bounds.antt =====
-- Theorems on `XChacha20Decrypt` (gocode/cryptutils/xchacha20.go) for any input.
use cramc.Prelude.{
  ℕ, zero, suc, ◌-◌, ◌≤◌, ◌≡◌, refl, sym, ap, ◌∙◌, ◌⊎◌, inl, inr, Bool, true, false, [], ◌∷◌, ◌++◌,
  arith, ltb, leb, Bool-cases, length, take, drop, length-append, Bytes, text_eq, text_eq_iff,
}
use cramc.Prelude.Outcome.{GoError, Outcome, ok, err, panic, >>=-eq-ok}
use cramc.Crypto.Crc.{kcrc32}
use cramc.Crypto.Buffers.{make, copy}
use cramc.Crypto.{Aead, IsAead, Slice, slice, opened, xchacha20_decrypt, checked}

abbrev pub is_panic : Outcome Bytes → Bool
is_panic panic = true
is_panic _ = false

module _ (aead : Aead) (laws : IsAead aead) (key : Bytes) (k : length key ≡ 32) where
  opened-returns :
      (s : Slice) (iv ad : Bytes) → length iv ≡ 24 → is_panic (opened aead key s iv ad) ≡ false
  opened-returns s iv ad n = elim (laws.open_returns key iv (drop 28 s.bytes) ad k n) [
    | inl (pt, e) ↦ rw e (ground arith)
    | inr (g, e) ↦ rw e
  ]

slice-cases :
    (s : Slice) (lo hi : ℕ) → (slice s lo hi ≡ panic) ⊎ ((x : Bytes) × (slice s lo hi ≡ ok x))
unfolding slice
slice-cases s lo hi = elim (Bool-cases (leb hi (length (s.bytes ++ s.spare)))) [
  | inl t ↦ inr (take (hi - lo) (drop lo (s.bytes ++ s.spare)), rw t)
  | inr f ↦ inl (rw f)
]

slice-ok :
    (s : Slice) (lo hi : ℕ)
    → hi ≤ length s.bytes
    → slice s lo hi ≡ ok (take (hi - lo) (drop lo (s.bytes ++ s.spare)))
unfolding slice
slice-ok s lo hi h = ground (arith, length-append s.bytes s.spare)

length-take : (n : ℕ) (xs : Bytes) → n ≤ length xs → length (take n xs) ≡ n
length-take zero xs h = refl
length-take (suc n) [] h = absurd (omega arith)
length-take (suc n) (x ∷ xs) h = ap suc (length-take n xs (omega arith))

module _ (aead : Aead) (laws : IsAead aead) (key : Bytes) (k : length key ≡ 32) (s : Slice) where
  short_panics : ltb (length s.bytes) 44 ≡ true → xchacha20_decrypt aead key s ≡ panic
  unfolding xchacha20_decrypt
  short_panics t = elim (slice-cases s 0 24) [
    | inl p ↦ rw p
    | inr (iv, e) ↦ elim (slice-cases s 24 28) [
      | inl p ↦ rw e (rw p)
      | inr (ad, e') ↦ rw e (rw e' (rw (laws.key_good key k) (rw t)))
    ]
  ]

  long_returns : ltb (length s.bytes) 44 ≡ false → is_panic (xchacha20_decrypt aead key s) ≡ false
  unfolding xchacha20_decrypt
  long_returns f =
      let long : 44 ≤ length s.bytes = ground arith in
      rw (slice-ok s 0 24 (omega (arith, long))) (
        rw (slice-ok s 24 28 (omega (arith, long))) (
          rw (laws.key_good key k) (
            rw f (
              opened-returns aead laws key k s _ _ (
                length-take 24 (s.bytes ++ s.spare)
                  (omega (arith, long, length-append {0} s.bytes s.spare)))))))

-- With a key of 32 bytes, decrypting panics exactly on a file of fewer than 44 bytes, where the
-- space left for the text would be negative, whatever capacity its buffer has; on every longer one
-- it returns a text or an error.
pub xchacha20_decrypt_panics :
    (aead : Aead) (key : Bytes) (mixedct : Slice)
    → IsAead aead
    → length key ≡ 32
    → is_panic (xchacha20_decrypt aead key mixedct) ≡ ltb (length mixedct.bytes) 44
xchacha20_decrypt_panics aead key mixedct laws k =
    elim (Bool-cases (ltb (length mixedct.bytes) 44)) [
      | inl t ↦ rw (short_panics aead laws key k mixedct t) (sym t)
      | inr f ↦ long_returns aead laws key k mixedct f ∙ sym f
    ]

ok-injective : {x y : Bytes} → ok x ≡ ok y → x ≡ y
ok-injective h = cc

err-ne-ok : {e : GoError} {pt : Bytes} → err e ≡ ok pt → ⊥
err-ne-ok h = cc

panic-ne-ok : {pt : Bytes} → panic ≡ ok pt → ⊥
panic-ne-ok h = cc

opened-kcrc32 :
    (aead : Aead) (key pt : Bytes) (s : Slice) (iv ad : Bytes)
    → opened aead key s iv ad ≡ ok pt
    → ad ≡ kcrc32 pt
opened-kcrc32 aead key pt s iv ad h =
    let (text, e, h1) = >>=-eq-ok (aead.open_sealed key iv (drop 28 s.bytes) ad) _ h in
    let pt' = copy (make (length s.bytes - 24 - 4 - 16)) text in
    elim (Bool-cases (text_eq (kcrc32 pt') ad)) [
      | inl t ↦ sym ((text_eq_iff (kcrc32 pt') ad).0 t) ∙ ap kcrc32 (ok-injective (rw t at h1))
      | inr f ↦ absurd (err-ne-ok (rw f at h1))
    ]

-- What decrypting returns has the check sum that stands in the file behind the nonce.
xchacha20_decrypt-kcrc32 :
    (aead : Aead) (key pt : Bytes) (mixedct : Slice)
    → xchacha20_decrypt aead key mixedct ≡ ok pt
    → slice mixedct 24 28 ≡ ok (kcrc32 pt)
unfolding xchacha20_decrypt
xchacha20_decrypt-kcrc32 aead key pt mixedct h =
    let (iv, e1, h1) = >>=-eq-ok (slice mixedct 0 24) _ h in
    let (ad, e2, h2) = >>=-eq-ok (slice mixedct 24 28) _ h1 in
    let (u, e3, h3) = >>=-eq-ok (checked (aead.new_x key)) _ h2 in
    elim (Bool-cases (ltb (length mixedct.bytes) 44)) [
      | inl t ↦ absurd (panic-ne-ok (rw t at h3))
      | inr f ↦ e2 ∙ ap ok (opened-kcrc32 aead key pt mixedct iv ad (rw f at h3))
    ]

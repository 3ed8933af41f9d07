-- ===== src/Crypto/RoundTrip.antt =====
-- Theorems on `XChacha20Encrypt` followed by `XChacha20Decrypt` (gocode/cryptutils/xchacha20.go).
use cramc.Prelude.{
  ◌+◌, ◌-◌, ◌≡◌, refl, false, [], ◌++◌, append-nil, append_assoc, arith, ltb, length, length-append,
  take-append, drop-append, Bytes, text_eq_refl,
}
use cramc.Prelude.Outcome.{ok}
use cramc.Crypto.Crc.{kcrc32, length-kcrc32}
use cramc.Crypto.Buffers.{copy_at-make, copy-make_self}
use cramc.Crypto.{
  Aead, IsAead, Slice, slice, opened, container, xchacha20_encrypt, xchacha20_decrypt, nonce_size,
  crc_size, overhead,
}

module _ (aead : Aead) (laws : IsAead aead) (key iv pt : Bytes) where
  abbrev sealed : Bytes
  sealed = aead.seal key iv pt (kcrc32 pt)

  -- The container is the nonce, the sum and the sealed text, with no byte left over.
  pub container-parts :
      length key ≡ 32 → length iv ≡ 24 → container aead key iv pt ≡ (iv ++ kcrc32 pt) ++ sealed
  unfolding container
  container-parts k n =
      let size = length pt + nonce_size + overhead + crc_size in
      let sum = kcrc32 pt in
      let len = laws.seal_length key iv pt sum k n in
      rw (copy_at-make [] iv size 0 refl (omega (arith, n))) (
        rw
          (copy_at-make iv sum (size - length iv) (length iv) refl
            (omega (arith, n, length-kcrc32 pt)))
          (rw
            (copy_at-make (iv ++ sum) sealed (size - length iv - length sum) (nonce_size + crc_size)
              (omega (arith, n, length-kcrc32 pt, length-append {0} iv sum))
              (omega (arith, n, length-kcrc32 pt, len)))
            (let none_left : size - length iv - length sum - length sealed ≡ 0 =
                omega (arith, n, length-kcrc32 pt, len) in
              rw none_left (append-nil ((iv ++ sum) ++ sealed)))))

-- Cutting three parts out of a slice.
module _ (iv sum rest spare : Bytes) (n : length iv ≡ nonce_size) (c : length sum ≡ crc_size) where
  abbrev joined : Slice
  joined = record { bytes = (iv ++ sum) ++ rest; spare = spare }

  regroup : joined.bytes ++ joined.spare ≡ iv ++ (sum ++ (rest ++ spare))
  regroup = simp append_assoc

  slice_nonce : slice joined 0 nonce_size ≡ ok iv
  unfolding slice
  slice_nonce = rw regroup (
      rw (take-append iv (sum ++ (rest ++ spare)) 24 n)
        (ground (arith, length-append iv (sum ++ (rest ++ spare)), n)))

  slice_sum : slice joined nonce_size (nonce_size + crc_size) ≡ ok sum
  unfolding slice
  slice_sum = rw regroup (
      rw (drop-append iv (sum ++ (rest ++ spare)) 24 n) (
        rw (take-append sum (rest ++ spare) 4 c) (
          ground (
            arith,
            length-append iv (sum ++ (rest ++ spare)),
            length-append sum (rest ++ spare),
            n,
            c,
          ))))

opened-same :
    (aead : Aead) (laws : IsAead aead) (key iv pt spare : Bytes)
    → length key ≡ 32
    → length iv ≡ 24
    → opened aead key
        (record { bytes = (iv ++ kcrc32 pt) ++ aead.seal key iv pt (kcrc32 pt); spare = spare })
        iv
        (kcrc32 pt)
      ≡ ok pt
opened-same aead laws key iv pt spare k n =
    let sum = kcrc32 pt in
    let text = aead.seal key iv pt sum in
    let c = length-kcrc32 pt in
    let len = laws.seal_length key iv pt sum k n in
    let front : length (iv ++ sum) ≡ 28 = omega (arith, length-append {0} iv sum, n, c) in
    let size : length ((iv ++ sum) ++ text) - 24 - 4 - 16 ≡ length pt =
      omega (arith, length-append {0} (iv ++ sum) text, front, len) in
    rw (drop-append (iv ++ sum) text 28 front) (
      rw (laws.open_seal key iv pt sum k n)
        (rw size (rw (copy-make_self pt) (rw (text_eq_refl sum)))))

-- A text encrypted under a key of 32 bytes with a nonce of 24 is decrypted to itself, whatever the
-- array holds behind the container.
pub xchacha20_decrypt-encrypt :
    (aead : Aead) (key iv pt spare : Bytes)
    → IsAead aead
    → length key ≡ 32
    → length iv ≡ 24
    → (ct : Bytes) × (xchacha20_encrypt aead (ok iv) key pt ≡ ok ct)
      × (length ct ≡ length pt + 44)
      × (xchacha20_decrypt aead key (record { bytes = ct; spare = spare }) ≡ ok pt)
unfolding xchacha20_encrypt xchacha20_decrypt
xchacha20_decrypt-encrypt aead key iv pt spare laws k n =
    let sum = kcrc32 pt in
    let text = aead.seal key iv pt sum in
    let c = length-kcrc32 pt in
    let len = laws.seal_length key iv pt sum k n in
    let size : length ((iv ++ sum) ++ text) ≡ length pt + 44 =
      omega (arith, length-append {0} (iv ++ sum) text, length-append {0} iv sum, n, c, len) in
    (
      (iv ++ sum) ++ text,
      rw (laws.key_good key k) (rw (container-parts aead laws key iv pt k n)),
      size,
      rw (slice_nonce iv sum text spare n c) (
          rw (slice_sum iv sum text spare n c) (
            rw (laws.key_good key k) (
              let long : ltb (length ((iv ++ sum) ++ text)) 44 ≡ false = ground (arith, size) in
              rw long (opened-same aead laws key iv pt spare k n)))),
    )

-- ===== src/Crypto.antt =====
-- gocode/cryptutils/xchacha20.go: the container of the encrypted database and rules. It is the
-- nonce (24 bytes), the CRC-32 of the plain text (4 bytes), and the sealed text with its tag (16).
pub mod Crc
pub mod Buffers
pub mod RoundTrip
pub mod Bounds
pub mod Password
use cramc.Prelude.{
  ℕ, ◌+◌, ◌-◌, ◌≡◌, ◌⊎◌, Option, none, some, ◌++◌, ltb, leb, if◌then◌else◌, length, take, drop,
  Bytes, text_eq,
}
use cramc.Prelude.Outcome.{GoError, Outcome, ok, err, panic, ◌>>◌, ◌>>=◌, decryption_failed}
use cramc.Crypto.Crc.{kcrc32}
use cramc.Crypto.Buffers.{make, copy, copy_at}

-- golang.org/x/crypto/chacha20poly1305: the error of `NewX`, `Seal` and `Open`.
pub record Aead : Type 0 where
  pub new_x : Bytes → Option GoError
  pub seal : Bytes → Bytes → Bytes → Bytes → Bytes
  pub open_sealed : Bytes → Bytes → Bytes → Bytes → Outcome Bytes

-- What its documentation says: a key has 32 bytes and a nonce 24, the tag takes 16, what was
-- sealed is opened with the same key, nonce and additional data, and opening gives a text or an
-- error.
pub record IsAead (a : Aead) : Type 0 where
  pub key_good : (key : Bytes) → length key ≡ 32 → a.new_x key ≡ none
  pub seal_length :
      (key iv pt ad : Bytes)
      → length key ≡ 32
      → length iv ≡ 24
      → length (a.seal key iv pt ad) ≡ length pt + 16
  pub open_seal :
      (key iv pt ad : Bytes)
      → length key ≡ 32
      → length iv ≡ 24
      → a.open_sealed key iv (a.seal key iv pt ad) ad ≡ ok pt
  pub open_returns :
      (key iv ct ad : Bytes)
      → length key ≡ 32
      → length iv ≡ 24
      → ((pt : Bytes) × (a.open_sealed key iv ct ad ≡ ok pt))
        ⊎ ((e : GoError) × (a.open_sealed key iv ct ad ≡ err e))

abbrev pub nonce_size : ℕ
nonce_size = 24

abbrev pub crc_size : ℕ
crc_size = 4

abbrev pub overhead : ℕ
overhead = 16

-- A slice: its bytes, and those of the array behind it up to the capacity.
pub record Slice : Type 0 where
  pub bytes : Bytes
  pub spare : Bytes

-- `s[lo:hi]`, which may reach up to the capacity.
unfoldable pub slice : Slice → ℕ → ℕ → Outcome Bytes
slice s lo hi =
    if leb hi (length (s.bytes ++ s.spare))
    then ok (take (hi - lo) (drop lo (s.bytes ++ s.spare)))
    else panic

abbrev pub checked : Option GoError → Outcome (Unit {0})
checked none = ok tt
checked (some e) = err e

module _ (aead : Aead) where
  -- The container that `XChacha20Encrypt` fills, from the nonce that was read.
  unfoldable pub container : Bytes → Bytes → Bytes → Bytes
  container key iv pt =
      let asso_data = kcrc32 pt in
      let ct0 = make (length pt + nonce_size + overhead + crc_size) in
      let ct1 = copy_at 0 ct0 iv in
      let ct2 = copy_at (length iv) ct1 asso_data in
      copy_at (nonce_size + crc_size) ct2 (aead.seal key iv pt asso_data)

  -- `XChacha20Encrypt`; `rand` is what `crand.Read` fills the nonce with.
  unfoldable pub xchacha20_encrypt : Outcome Bytes → Bytes → Bytes → Outcome Bytes
  xchacha20_encrypt rand key pt = do iv ← rand; checked (aead.new_x key); ok (container key iv pt)

  abbrev opened : Bytes → Slice → Bytes → Bytes → Outcome Bytes
  opened key mixedct iv asso_data = do
    pt_final ← aead.open_sealed key iv (drop (nonce_size + crc_size) mixedct.bytes) asso_data
    let pt = copy (make (length mixedct.bytes - nonce_size - crc_size - overhead)) pt_final
    if text_eq (kcrc32 pt) asso_data then ok pt else err decryption_failed

  -- `XChacha20Decrypt`: `make` panics on a negative length.
  unfoldable pub xchacha20_decrypt : Bytes → Slice → Outcome Bytes
  unfolding slice
  xchacha20_decrypt key mixedct = do
    iv ← slice mixedct 0 nonce_size
    asso_data ← slice mixedct nonce_size (nonce_size + crc_size)
    checked (aead.new_x key)
    if ltb (length mixedct.bytes) (nonce_size + crc_size + overhead)
        then panic
        else opened key mixedct iv asso_data

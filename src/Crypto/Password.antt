-- ===== src/Crypto/Password.antt =====
-- `HexEncryptionPassword` of gocode/common/shared.go, as encoding/hex decodes it.
use cramc.Prelude.{ℕ, ◌*◌, ◌≡◌, refl, Bool, true, ◌&&◌, ◌||◌, arith, leb, length, All, Bytes, codes}
use cramc.Prelude.Outcome.{Outcome, ok}

abbrev pub hex_encryption_password : Bytes
hex_encryption_password = codes "1928da3545b48068e024d06f2f132c728eabcd933a8659e578d7a82fde0cd948"

abbrev pub is_hex_digit : ℕ → Bool
is_hex_digit c =
    (leb b'0' c && leb c b'9') || (leb b'a' c && leb c b'f') || (leb b'A' c && leb c b'F')

-- What `hex.DecodeString` is documented to do: two hexadecimal digits give a byte.
pub record IsHexDecoder (decode_string : Bytes → Outcome Bytes) : Type 0 where
  pub decodes :
      (s : Bytes) (n : ℕ)
      → All (λ c. is_hex_digit c ≡ true) s
      → length s ≡ 2 * n
      → (b : Bytes) × (decode_string s ≡ ok b) × (length b ≡ n)

-- The password is a key of 32 bytes.
pub password_key :
    (decode_string : Bytes → Outcome Bytes)
    → IsHexDecoder decode_string
    → (key : Bytes) × (decode_string hex_encryption_password ≡ ok key) × (length key ≡ 32)
password_key decode_string laws = laws.decodes hex_encryption_password 32 (ground arith) refl

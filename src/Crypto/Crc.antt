-- ===== src/Crypto/Crc.antt =====
-- gocode/cryptutils/xchacha20.go: `KCRC32`, which is `hash/crc32` with the Koopman polynomial,
-- byte by byte through the table, and the four bytes of the sum, the lowest first.
use Prim.Native.Nat.{bit_xor}
use cramc.Prelude.{ℕ, zero, suc, ◌/◌, ◌%◌, ◌≡◌, refl, [], ◌∷◌, ◌==◌, if◌then◌else◌, length, Bytes}

abbrev pub koopman : ℕ
koopman = 0xeb31d82e

abbrev mask : ℕ
mask = 0xffffffff

-- One entry of the table: a byte shifted out bit by bit.
unfoldable pub shift_out : ℕ → ℕ → ℕ
shift_out zero crc = crc
shift_out (suc n) crc = shift_out n (if crc % 2 == 1 then bit_xor (crc / 2) koopman else crc / 2)

unfoldable pub update : ℕ → Bytes → ℕ
unfolding shift_out
update crc [] = crc
update crc (c ∷ s) = update (bit_xor (shift_out 8 (bit_xor (crc % 256) c)) (crc / 256)) s

unfoldable pub checksum : Bytes → ℕ
unfolding update
checksum s = bit_xor (update mask s) mask

-- `binary.LittleEndian.PutUint32`
unfoldable pub put_uint32 : ℕ → Bytes
put_uint32 n = n % 256 ∷ n / 256 % 256 ∷ n / 65536 % 256 ∷ n / 16777216 % 256 ∷ []

unfoldable pub kcrc32 : Bytes → Bytes
unfolding checksum put_uint32
kcrc32 pt = put_uint32 (checksum pt)

pub length-kcrc32 : (pt : Bytes) → length (kcrc32 pt) ≡ 4
unfolding kcrc32
length-kcrc32 pt = refl

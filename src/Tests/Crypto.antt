-- ===== src/Tests/Crypto.antt =====
-- A seal that only appends a tag.
use cramc.Prelude.{
  ◌+◌, ◌-◌, ◌≡◌, refl, ap, inl, none, some, [], ◌∷◌, ◌++◌, arith, ltb, ◌==◌, if◌then◌else◌, length,
  take, replicate, length-append, take-append, Bytes, codes,
}
use cramc.Prelude.Outcome.{ok, invalid_input}
use cramc.Crypto.{Aead, IsAead, Slice, xchacha20_encrypt, xchacha20_decrypt}
use cramc.Crypto.Crc.{kcrc32, checksum, update, shift_out, put_uint32}
use cramc.Crypto.RoundTrip.{xchacha20_decrypt-encrypt}
use cramc.Crypto.Bounds.{is_panic, xchacha20_decrypt_panics}

abbrev tag : Bytes
tag = replicate 16 0

abbrev pub tagging : Aead
tagging = record {
  new_x = λ key. if length key == 32 then none else some invalid_input;
  seal = λ key iv pt ad. pt ++ tag;
  open_sealed = λ key iv ct ad. ok (take (length ct - 16) ct);
}

tagged_back : (pt : Bytes) → take (length (pt ++ tag) - 16) (pt ++ tag) ≡ pt
tagged_back pt = take-append pt tag (length (pt ++ tag) - 16) (omega (arith, length-append pt tag))

pub tagging-IsAead : IsAead tagging
tagging-IsAead = record {
  key_good = λ key k. ground arith;
  seal_length = λ key iv pt ad k i. length-append pt tag;
  open_seal = λ key iv pt ad k i. ap ok (tagged_back pt);
  open_returns = λ key iv ct ad k i. inl (_, refl);
}

abbrev key : Bytes
key = replicate 32 7

abbrev pub nonce : Bytes
nonce = replicate 24 9

abbrev hello : Bytes
hello = codes "hello"

xchacha20_decrypt-encrypt_example :
    (ct : Bytes) × (xchacha20_encrypt tagging (ok nonce) key hello ≡ ok ct)
    × (length ct ≡ length hello + 44)
    × (xchacha20_decrypt tagging key (record { bytes = ct; spare = 1 ∷ [] }) ≡ ok hello)
xchacha20_decrypt-encrypt_example =
    xchacha20_decrypt-encrypt tagging key nonce hello (1 ∷ []) tagging-IsAead refl refl

abbrev cut_off : Slice
cut_off = record { bytes = replicate 43 0; spare = replicate 100 0 }

xchacha20_decrypt_panics_example :
    is_panic (xchacha20_decrypt tagging key cut_off) ≡ ltb (length cut_off.bytes) 44
xchacha20_decrypt_panics_example = xchacha20_decrypt_panics tagging key cut_off tagging-IsAead refl

-- The check value of the polynomial in the catalogue of CRCs, 0x2d3dd0ae.
kcrc32-digits : kcrc32 (codes "123456789") ≡ 0xae ∷ 0xd0 ∷ 0x3d ∷ 0x2d ∷ []
unfolding kcrc32 checksum update shift_out put_uint32
kcrc32-digits = refl

-- ===== src/Tests/Release.antt =====
-- A release on a disk with one file, beside an agent, and a decoder of hexadecimal digits.
use cramc.Prelude.{
  ℕ, zero, suc, ◌+◌, ◌-◌, ◌*◌, ◌≡◌, refl, Bool, true, false, ◌&&◌, Option, none, some, List, [],
  ◌∷◌, ◌++◌, arith, leb, if◌then◌else◌, length, replicate, All, Bytes, codes, text_eq,
}
use cramc.Prelude.Outcome.{Outcome, ok, err, invalid_input}
use cramc.Disk.{Disk}
use cramc.Crypto.Password.{is_hex_digit, IsHexDecoder}
use cramc.Rules.{RuleEnv, Visit, raw_rules}
use cramc.Rules.Merged.{IsReadable, rules_in, raw_rules-rules_in}
use cramc.Release.{ReleaseFlags, ReleaseEnv, unified_yar}
use cramc.Release.Handover.{Converts, Encrypts}
use cramc.Tests.Crypto.{nonce}

abbrev nibble : ℕ → ℕ
nibble c = if leb c b'9' then c - 48 else if leb c b'F' then c - 55 else c - 87

abbrev joined : Bool → ℕ → Outcome Bytes → Outcome Bytes
joined true b (ok rest) = ok (b ∷ rest)
joined _ b rest = err invalid_input

abbrev pub decode_hex : Bytes → Outcome Bytes
decode_hex [] = ok []
decode_hex (a ∷ []) = err invalid_input
decode_hex (a ∷ b ∷ s) =
    joined (is_hex_digit a && is_hex_digit b) (16 * nibble a + nibble b) (decode_hex s)

decode_hex-decodes :
    (s : Bytes) (n : ℕ)
    → All (λ c. is_hex_digit c ≡ true) s
    → length s ≡ 2 * n
    → (b : Bytes) × (decode_hex s ≡ ok b) × (length b ≡ n)
decode_hex-decodes [] n h l = ([], refl, omega arith)
decode_hex-decodes (a ∷ []) n h l = absurd (omega arith)
decode_hex-decodes (a ∷ b ∷ s) zero h l = absurd (omega arith)
decode_hex-decodes (a ∷ b ∷ s) (suc n) (d, (e, h)) l =
    let (rest, o, m) = decode_hex-decodes s n h (omega arith) in
    ((16 * nibble a + nibble b) ∷ rest, rw d (rw e (rw o refl)), omega arith)

pub decode_hex-IsHexDecoder : IsHexDecoder decode_hex
decode_hex-IsHexDecoder = record { decodes = decode_hex-decodes }

abbrev pub env : ReleaseEnv
env = record {
  stat_error = λ p. none;
  read_error = λ p. none;
  create_error = λ p. none;
  write_error = λ p. none;
  mkdir_error = none;
  remove_error = none;
  decode_string = decode_hex;
  rand = ok nonce;
  spare = 0 ∷ [];
  cut = λ b. [];
}

-- Every file of two is listed, the output of the compilation too.
abbrev listed : Bytes → Option Bytes → List Visit
listed path none = []
listed path (some content) =
    record { cur_path = path; cur_info = some (record { name = path; is_dir = false }) } ∷ []

abbrev pub rules : RuleEnv
rules = record {
  walk = λ dir disk.
      listed unified_yar (disk unified_yar)
      ++ listed (codes "yrules/a.yar") (disk (codes "yrules/a.yar"));
  read_error = λ p. none;
  new_compiler_error = none;
  add_source_error = λ raw. none;
  build = λ raw. b'Y' ∷ raw;
  compile_errors = λ raw. [];
  create_error = λ p. none;
  write_error = λ p. none;
  cut = λ b. [];
}

abbrev pub encrypting : ReleaseFlags
encrypting = record {
  enc = true;
  compile = false;
  dec = false;
  in_file = codes "db.json";
  out_file = codes "app/cramc_db.bin";
}

abbrev pub disk : Disk
disk q =
    if text_eq q (codes "db.json")
    then some (codes "{}")
    else if text_eq q (codes "yrules/a.yar")
    then some (codes "rule a")
    else none

pub encrypting-Converts : Converts env encrypting
encrypting-Converts = record {
  not_compile = refl;
  one_direction = refl;
  named = λ e. cc;
  examines = refl;
  reads = refl;
  creates = refl;
  writes = refl;
}

pub encrypting-Encrypts : Encrypts env encrypting nonce
encrypting-Encrypts = record { enc = refl; rand = refl; nonce = refl }

pub json_there : disk encrypting.in_file ≡ some (codes "{}")
unfolding text_eq
json_there = refl

abbrev plain : Bytes
plain = replicate 44 1

abbrev walked : List Visit
walked = listed (codes "yrules/a.yar") (some (codes "rule a"))

walked-IsReadable : All (IsReadable rules disk) walked
unfolding text_eq
walked-IsReadable = (((_, refl), λ t. ((_, refl), refl)), tt)

raw_rules-rules_in_example : raw_rules rules disk walked ≡ ok (rules_in disk walked)
raw_rules-rules_in_example = raw_rules-rules_in rules disk walked walked-IsReadable

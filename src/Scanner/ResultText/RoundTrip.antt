-- ===== src/Scanner/ResultText/RoundTrip.antt =====
-- Theorems on `ParseYaraScanResultText` (gocode/yarax_scanner/parse_iptlist.go) for the output of
-- yara.
use native.Mathlib.Nat.{suc-add}
use cramc.Prelude.{
  ℕ, suc, ◌+◌, ◌≤◌, ◌≡◌, refl, ◌∙◌, false, ◌||◌, Option, none, some, List, [], ◌∷◌, ◌++◌, map,
  arith, leb, ◌==◌, if◌then◌else◌, length, take, drop, All, length-append, take-append, Bytes,
}
use cramc.Prelude.Outcome.{GoError, ok}
use cramc.Common.{YaraScanResult}
use cramc.Scanner.Lines.{scan_lines, scan_from, IsLine, scan_lines-cons}
use cramc.Scanner.ResultText.{index_byte, parse_line, parse_lines, parse_yara_scan_result_text}

-- What yara prints for a match: the rule, a space, the path.
abbrev pub result_line : YaraScanResult → Bytes
result_line r = r.detected_rule ++ b' ' ∷ r.file_path

abbrev pub result_text : List YaraScanResult → Bytes
result_text [] = []
result_text (r ∷ rs) = result_line r ++ b'\n' ∷ result_text rs

abbrev pub HasNoSpace : Bytes → Type 0
HasNoSpace = All (λ c. (c == b' ') ≡ false)

pub record IsPrintable (r : YaraScanResult) : Type 0 where
  pub rule_ne_nil : 1 ≤ length r.detected_rule
  pub rule_no_space : HasNoSpace r.detected_rule
  pub path_long : 3 ≤ length r.file_path
  pub line : IsLine (result_line r)

index_byte-append : (a b : Bytes) → HasNoSpace a → index_byte b' ' (a ++ b' ' ∷ b) ≡ some (length a)
unfolding index_byte
index_byte-append [] b h = refl
index_byte-append (c ∷ a) b h = ground (arith, index_byte-append a b h.1)

take-length : (a b : Bytes) → take (length a) (a ++ b) ≡ a
take-length a b = take-append a b (length a) refl

drop-length : (a b : Bytes) (c : ℕ) → drop (length a + 1) (a ++ c ∷ b) ≡ b
drop-length [] b c = refl
drop-length (x ∷ a) b c = rw suc-add (drop-length a b c)

-- What a line with a first space gives.
pub parse_line-append :
    (a b : Bytes)
    → HasNoSpace a
    → parse_line (a ++ b' ' ∷ b) ≡ (
        if leb (length a) 0 || leb (length a + suc (length b)) (length a + 3)
        then none
        else some (record { detected_rule = a; file_path = b }))
unfolding parse_line
parse_line-append a b h =
    rw (index_byte-append a b h)
      (rw (take-length a (b' ' ∷ b), drop-length a b b' ', length-append a (b' ' ∷ b)))

parse_line-result_line : (r : YaraScanResult) → IsPrintable r → parse_line (result_line r) ≡ some r
parse_line-result_line r h = ground (
  arith,
  parse_line-append r.detected_rule r.file_path h.rule_no_space,
  h.rule_ne_nil,
  h.path_long,
)

scan_lines-result_text :
    (rs : List YaraScanResult) (failure : Option GoError)
    → All IsPrintable rs
    → scan_lines failure (result_text rs) ≡ (map result_line rs, failure)
scan_lines-result_text [] failure h = unfold scan_from in refl
scan_lines-result_text (r ∷ rs) failure h =
    scan_lines-cons failure (result_line r) (result_text rs) h.0.line
    ∙ rw (scan_lines-result_text rs failure h.1)

parse_lines-result_line :
    (rs : List YaraScanResult) → All IsPrintable rs → parse_lines (map result_line rs) ≡ rs
unfolding parse_lines
parse_lines-result_line [] h = refl
parse_lines-result_line (r ∷ rs) h =
    rw (parse_line-result_line r h.0, parse_lines) (rw (parse_lines-result_line rs h.1))

-- Every list of matches that yara can print, each with a rule that has no space, a path of at
-- least three bytes, and a line that the scanner can hold, is sent on as it was, in order, and
-- the error is that of the reader.
pub parse_yara_scan_result_text-result_text :
    (rs : List YaraScanResult) (failure : Option GoError)
    → All IsPrintable rs
    → parse_yara_scan_result_text (ok (record { content = result_text rs; read_error = failure }))
      ≡ (rs, failure)
unfolding parse_yara_scan_result_text
parse_yara_scan_result_text-result_text rs failure h =
    rw (scan_lines-result_text rs failure h) (rw (parse_lines-result_line rs h))

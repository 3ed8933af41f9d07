-- ===== src/Scanner/ResultText/Sound.antt =====
-- Theorems on `ParseYaraScanResultText` (gocode/yarax_scanner/parse_iptlist.go) for any file.
use cramc.Prelude.{
  ℕ, suc, ◌≤◌, ◌≡◌, ap, inl, inr, false, some, List, [], ◌∷◌, ◌++◌, map, arith, ◌==◌, Bool-cases,
  Option-cases, length, All, Bytes,
}
use cramc.Prelude.Outcome.{ok}
use cramc.Common.{YaraScanResult}
use cramc.Scanner.Lines.{scan_lines}
use cramc.Scanner.ResultText.{
  index_byte, parse_line, parse_lines, TextFile, parse_yara_scan_result_text,
}
use cramc.Scanner.ResultText.RoundTrip.{result_line, HasNoSpace, parse_line-append}

-- A rule, and a path after the first space of the line.
pub record IsSplit (r : YaraScanResult) : Type 0 where
  pub rule_ne_nil : 1 ≤ length r.detected_rule
  pub rule_no_space : HasNoSpace r.detected_rule
  pub path_long : 3 ≤ length r.file_path

record IsFirstSpace (line : Bytes) (i : ℕ) : Type 0 where
  before : Bytes
  after : Bytes
  splits : line ≡ before ++ b' ' ∷ after
  no_space : HasNoSpace before
  at : length before ≡ i

IsFirstSpace-cons :
    (c : ℕ) (cs : Bytes) (i : ℕ)
    → (c == b' ') ≡ false
    → IsFirstSpace cs i
    → IsFirstSpace (c ∷ cs) (suc i)
IsFirstSpace-cons c cs i h f = record {
  before = c ∷ f.before;
  after = f.after;
  splits = ap (◌∷◌ c) f.splits;
  no_space = (h, f.no_space);
  at = omega (arith, f.at);
}

index_byte-IsFirstSpace :
    (line : Bytes) {i : ℕ} → index_byte b' ' line ≡ some i → IsFirstSpace line i
unfolding index_byte
index_byte-IsFirstSpace [] e = absurd (cc)
index_byte-IsFirstSpace (c ∷ cs) {i} e = elim (Bool-cases (c == b' ')) [
  | inl t ↦ record {
    before = [];
    after = cs;
    splits = ground arith;
    no_space = tt;
    at = ground arith;
  }
  | inr f ↦ elim (Option-cases (index_byte b' ' cs)) [
    | inl n ↦ absurd (ground arith)
    | inr (j, m) ↦
        let p : i ≡ suc j = ground arith in
        rw p (IsFirstSpace-cons c cs j f (index_byte-IsFirstSpace cs m))
  ]
]

IsSplit-append :
    (a b : Bytes) {r : YaraScanResult}
    → HasNoSpace a
    → parse_line (a ++ b' ' ∷ b) ≡ some r
    → IsSplit r × (a ++ b' ' ∷ b ≡ result_line r)
IsSplit-append a b h e = ground (arith, parse_line-append a b h)

-- A line that gives a match is that match, printed.
parse_line-IsSplit :
    (line : Bytes) {r : YaraScanResult}
    → parse_line line ≡ some r
    → IsSplit r × (line ≡ result_line r)
unfolding parse_line
parse_line-IsSplit line {r} e = elim (Option-cases (index_byte b' ' line)) [
  | inl n ↦ absurd (ground arith)
  | inr (i, m) ↦
      let f = index_byte-IsFirstSpace line m in
      rw f.splits (IsSplit-append f.before f.after f.no_space (rw f.splits at e))
]

-- The first list is the second with some lines left out.
pub data IsSubsequence : List Bytes → List Bytes → Type 0 where
  done : {xs : List Bytes} → IsSubsequence [] xs
  keep : {l : Bytes} {xs ys : List Bytes} → IsSubsequence xs ys → IsSubsequence (l ∷ xs) (l ∷ ys)
  skip : {l : Bytes} {xs ys : List Bytes} → IsSubsequence xs ys → IsSubsequence xs (l ∷ ys)

pub record AreSent (rs : List YaraScanResult) (ls : List Bytes) : Type 0 where
  pub split : All IsSplit rs
  pub in_order : IsSubsequence (map result_line rs) ls

parse_lines-AreSent : (ls : List Bytes) → AreSent (parse_lines ls) ls
unfolding parse_lines
parse_lines-AreSent [] = record { split = tt; in_order = done }
parse_lines-AreSent (l ∷ ls) = elim (Option-cases (parse_line l)) [
  | inl n ↦
      let rest = parse_lines-AreSent ls in
      rw (n, parse_lines) (record { split = rest.split; in_order = skip rest.in_order })
  | inr (r, m) ↦
      let rest = parse_lines-AreSent ls in
      let (good, same) = parse_line-IsSplit l m in
      rw (m, parse_lines)
        (record { split = (good, rest.split); in_order = rw same (keep rest.in_order) })
]

-- Whatever the file holds, each match that is sent has a rule with no space in it and a path of at
-- least three bytes, and printed again the matches are lines of the file, in the file's order.
parse_yara_scan_result_text-AreSent :
    (f : TextFile)
    → AreSent (parse_yara_scan_result_text (ok f)).0 (scan_lines f.read_error f.content).0
unfolding parse_yara_scan_result_text
parse_yara_scan_result_text-AreSent f = parse_lines-AreSent (scan_lines f.read_error f.content).0

-- ===== src/Scanner/ResultText.antt =====
-- gocode/yarax_scanner/parse_iptlist.go: `ParseYaraScanResultText`, which reads the output of an
-- external yara run, a rule and a path on each line. The channel is the list of what was sent on
-- it; the log is left out. A file is the error of opening it, or its bytes and the error that
-- reading ends with.
pub mod RoundTrip
pub mod Sound
use cramc.Prelude.{
  ℕ, suc, ◌+◌, Bool, true, false, ◌||◌, Option, none, some, List, [], ◌∷◌, ◌++◌, ◌==◌, leb,
  if◌then◌else◌, length, take, drop, Bytes,
}
use cramc.Prelude.Outcome.{GoError, Outcome, ok, err, panic, blocked}
use cramc.Common.{YaraScanResult}
use cramc.Scanner.Lines.{scan_lines, scan_from}

-- `strings.IndexRune` at an ASCII rune; `none` stands for -1.
unfoldable pub index_byte : ℕ → Bytes → Option ℕ
index_byte b [] = none
index_byte b (c ∷ cs) =
    if c == b then some 0 else (elim (index_byte b cs) [ none ↦ none | some i ↦ some (suc i) ])

-- `idx <= 0 || idx+3 >= len(data)`
abbrev pub is_ignored : Option ℕ → ℕ → Bool
is_ignored none len = true
is_ignored (some idx) len = leb idx 0 || leb len (idx + 3)

abbrev split_at : Option ℕ → Bytes → YaraScanResult
split_at none line = record { detected_rule = []; file_path = line }
split_at (some idx) line = record { detected_rule = take idx line; file_path = drop (idx + 1) line }

-- One round of the loop: what it sends, if anything.
unfoldable pub parse_line : Bytes → Option YaraScanResult
unfolding index_byte
parse_line line =
    if is_ignored (index_byte b' ' line) (length line)
    then none
    else some (split_at (index_byte b' ' line) line)

unfoldable pub parse_lines : List Bytes → List YaraScanResult
parse_lines [] = []
parse_lines (l ∷ ls) = elim (parse_line l) [ none ↦ parse_lines ls | some r ↦ r ∷ parse_lines ls ]

pub record TextFile : Type 0 where
  pub content : Bytes
  pub read_error : Option GoError

unfoldable pub parse_yara_scan_result_text : Outcome TextFile → List YaraScanResult × Option GoError
parse_yara_scan_result_text (ok f) =
    let (lines, e) = scan_lines f.read_error f.content in (parse_lines lines, e)
parse_yara_scan_result_text (err e) = ([], some e)
parse_yara_scan_result_text panic = ([], none)
parse_yara_scan_result_text blocked = ([], none)

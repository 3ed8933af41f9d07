-- ===== src/Tests/Scanner.antt =====
-- A printed list of matches, and a file with lines that are none.
use mathlib.Core.List.{Memᴰ}
use cramc.Prelude.{
  ◌≡◌, refl, none, [], ◌∷◌, ◌++◌, arith, codes, ◌↔◌, Bytes, some, if◌then◌else◌, text_eq,
}
use cramc.Prelude.Outcome.{ok}
use cramc.Common.{YaraScanResult}
use cramc.Scanner.Yara.{YaraEnv, scan_files_with_yara}
use cramc.Scanner.Yara.Detected.{IsDetected, scan_files_with_yara-IsDetected}
use cramc.Scanner.Lines.{drop_cr}
use cramc.Scanner.ResultText.{TextFile, parse_yara_scan_result_text}
use cramc.Scanner.ResultText.RoundTrip.{
  IsPrintable, result_line, result_text, parse_yara_scan_result_text-result_text,
}

abbrev kangatang : YaraScanResult
kangatang = record { detected_rule = codes "Kangatang"; file_path = codes "C:/a b.xls" }

abbrev laroux : YaraScanResult
laroux = record { detected_rule = codes "Laroux"; file_path = codes "D:/x.xlsm" }

kangatang-IsPrintable : IsPrintable kangatang
unfolding drop_cr
kangatang-IsPrintable = record {
  rule_ne_nil = omega arith;
  rule_no_space = ground arith;
  path_long = omega arith;
  line = record { no_newline = ground arith; no_cr = refl; short = omega arith };
}

laroux-IsPrintable : IsPrintable laroux
unfolding drop_cr
laroux-IsPrintable = record {
  rule_ne_nil = omega arith;
  rule_no_space = ground arith;
  path_long = omega arith;
  line = record { no_newline = ground arith; no_cr = refl; short = omega arith };
}

parse_yara_scan_result_text-result_text_example :
    parse_yara_scan_result_text
      (ok (record { content = result_text (kangatang ∷ laroux ∷ []); read_error = none }))
    ≡ (kangatang ∷ laroux ∷ [], none)
parse_yara_scan_result_text-result_text_example =
    parse_yara_scan_result_text-result_text (kangatang ∷ laroux ∷ []) none
      (kangatang-IsPrintable, (laroux-IsPrintable, tt))

abbrev mixed : TextFile
mixed = record {
  content = result_text (kangatang ∷ []) ++ codes "no_path " ++ b'\n' ∷ result_line laroux;
  read_error = none;
}

-- A zip of one entry is a list of its bytes, and one rule matches every text but the empty one.
abbrev zips : YaraEnv
zips = record {
  Archive = Bytes;
  Entry = Bytes;
  open_reader = λ p. some p;
  open_entry = λ archive name. some archive;
  read_all = λ entry. some entry;
  read_file = λ p. none;
  scan = λ content. some (if text_eq content [] then [] else codes "Laroux" ∷ []);
}

scan_files_with_yara-IsDetected_example :
    Memᴰ laroux (scan_files_with_yara zips (codes "C:/no.xls" ∷ laroux.file_path ∷ []))
    ↔ IsDetected zips (codes "C:/no.xls" ∷ laroux.file_path ∷ []) laroux
scan_files_with_yara-IsDetected_example =
    scan_files_with_yara-IsDetected zips (codes "C:/no.xls" ∷ laroux.file_path ∷ []) laroux

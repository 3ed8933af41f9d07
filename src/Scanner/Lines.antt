-- ===== src/Scanner/Lines.antt =====
-- `bufio.Scanner` with `bufio.ScanLines`, as gocode/yarax_scanner/parse_iptlist.go runs it over a
-- file: a line ends at a newline, one carriage return before that is dropped, and a last line
-- without a newline counts if it is not empty. The scanner's buffer holds 65536 bytes, so a line
-- that fills it stops the scan with `bufio.ErrTooLong`.
use cramc.Prelude.{
  ℕ, ◌+◌, ◌<◌, false, Option, some, List, [], ◌∷◌, ◌++◌, ◌≡◌, arith, ◌==◌, if◌then◌else◌, length,
  length-append, All, Bytes, append_assoc, append-nil, ◌∙◌,
}
use cramc.Prelude.Outcome.{GoError, foreign}

abbrev pub max_scan_token_size : ℕ
max_scan_token_size = 65536

abbrev pub err_too_long : GoError
err_too_long = foreign 1

-- `dropCR` of the package bufio.
unfoldable pub drop_cr : Bytes → Bytes
drop_cr [] = []
drop_cr (c ∷ []) = if c == b'\r' then [] else c ∷ []
drop_cr (c ∷ d ∷ cs) = c ∷ drop_cr (d ∷ cs)

-- At the end of the input a line is read if it has a byte.
last_line : Bytes → List Bytes
last_line [] = []
last_line (c ∷ cs) = drop_cr (c ∷ cs) ∷ []

abbrev consed : Bytes → List Bytes × Option GoError → List Bytes × Option GoError
consed l (ls, e) = (l ∷ ls, e)

-- `cur` is what the buffer holds of the line being read; `failure` is the error of the reader at
-- the end of its bytes, if it is not `io.EOF`.
unfoldable pub scan_from : Option GoError → Bytes → Bytes → List Bytes × Option GoError
unfolding last_line
scan_from failure cur [] = (last_line cur, failure)
scan_from failure cur (c ∷ cs) =
    let ended = consed (drop_cr cur) (scan_from failure [] cs) in
    let longer = scan_from failure (cur ++ c ∷ []) cs in
    if c == b'\n'
    then ended
    else if length cur + 1 == max_scan_token_size
    then ([], some err_too_long)
    else longer

abbrev pub scan_lines : Option GoError → Bytes → List Bytes × Option GoError
scan_lines failure = scan_from failure []

abbrev pub HasNoNewline : Bytes → Type 0
HasNoNewline = All (λ c. (c == b'\n') ≡ false)

-- A line that the scanner gives back whole.
pub record IsLine (l : Bytes) : Type 0 where
  pub no_newline : HasNoNewline l
  pub no_cr : drop_cr l ≡ l
  pub short : length l < max_scan_token_size

scan_from-append :
    (failure : Option GoError) (cur l rest : Bytes)
    → HasNoNewline l
    → length cur + length l < max_scan_token_size
    → scan_from failure cur (l ++ b'\n' ∷ rest)
      ≡ consed (drop_cr (cur ++ l)) (scan_from failure [] rest)
unfolding scan_from
scan_from-append failure cur [] rest h s = rw append-nil
scan_from-append failure cur (c ∷ l) rest h s = ground (
  arith,
  length-append cur (c ∷ []),
  append_assoc cur (c ∷ []) l,
  scan_from-append failure (cur ++ c ∷ []) l rest h.1,
)

-- A line with its newline is read back, whatever follows it.
pub scan_lines-cons :
    (failure : Option GoError) (l rest : Bytes)
    → IsLine l
    → scan_lines failure (l ++ b'\n' ∷ rest) ≡ consed l (scan_lines failure rest)
scan_lines-cons failure l rest h =
    scan_from-append failure [] l rest h.no_newline (omega (arith, h.short)) ∙ rw (h.no_cr)

-- ===== src/Tests/Excel.antt =====
-- A workbook that is the list of its modules.
use cramc.Prelude.{
  ℕ, zero, suc, ◌≡◌, refl, sym, ap, ◌∙◌, true, false, Option, none, some, List, [], ◌∷◌, ◌++◌, map,
  append-nil, if◌then◌else◌, length, get_elem?, set, erase_at, Bytes, codes, text_eq,
}
use cramc.Prelude.Outcome.{GoError, ok, err, panic, insufficient_privilege, invalid_input}
use cramc.Excel.Com.{Component, Excel, IsExcel}
use cramc.Excel.Clean.{CleanEnv, Cleaner, clean_file}
use cramc.Excel.Clean.Outcomes.{IsReady, clean_file-remediated}
use cramc.Excel.Sanitize.{sanitize_open, sanitize_from, apply_op, cleanup_comment}
use cramc.Excel.Sanitize.Remediate.{remediated}
use cramc.Excel.Sanitize.Remove.{is_nil, sanitize_open-rm_module}

abbrev item_of : List Component → ℕ → Option Component
item_of w zero = none
item_of w (suc i) = get_elem? w i

abbrev with_code :
    Option Component → ℕ → (List Bytes → List Bytes) → List Component → List Component
with_code none i f w = w
with_code (some c) i f w = set w i (record { name = c.name; code = f c.code })

abbrev deleting : ℕ → ℕ → List Component → Option GoError × List Component
deleting zero n w = (some invalid_input, w)
deleting (suc i) n w = (none, with_code (get_elem? w i) i (λ code. []) w)

abbrev adding : ℕ → List Bytes → List Component → Option GoError × List Component
adding zero text w = (some invalid_input, w)
adding (suc i) text w = (none, with_code (get_elem? w i) i (λ code. text ++ code) w)

abbrev removing : ℕ → List Component → Option GoError × List Component
removing zero w = (some invalid_input, w)
removing (suc i) w = (none, erase_at w i)

abbrev pub listed : Excel
listed = record {
  Workbook = List Component;
  has_vb_project = λ w. true;
  vb_project = λ w. none;
  count = length;
  item = item_of;
  delete_lines = deleting;
  add_from_string = adding;
  remove = removing;
}

with_code-some :
    (o : Option Component) (c : Component) (i : ℕ) (f : List Bytes → List Bytes)
    (w w' : List Component)
    → o ≡ some c
    → with_code o i f w ≡ w'
    → w' ≡ set w i (record { name = c.name; code = f c.code })
with_code-some o c i f w w' e h = sym h ∙ simp e

abbrev book_after : Option GoError × List Component → List Component
book_after (e, w) = w

pub listed-IsExcel : IsExcel listed
listed-IsExcel = record {
  components = λ w. w;
  count_is = λ w. refl;
  item_is = λ w i. refl;
  deleted =
      λ w w' i c e h. with_code-some (get_elem? w i) c i (λ code. []) w w' e (ap book_after h);
  added = λ w w' i c text e n h.
      with_code-some (get_elem? w i) c i (λ code. text ++ code) w w' e (ap book_after h)
      ∙ ap (λ (code : List Bytes). set w i (record { name = c.name; code = code }))
          (ap (λ (code : List Bytes). text ++ code) n ∙ append-nil text);
  removed = λ w w' i h. sym (ap book_after h);
}

abbrev laroux : Component
laroux = record { name = codes "laroux"; code = codes "Sub auto_open()" ∷ [] }

abbrev sheet : Component
sheet = record { name = codes "Sheet1"; code = [] }

abbrev pub book : List Component
book = sheet ∷ laroux ∷ sheet ∷ []

abbrev pub remediated_book : List Component
remediated_book = sheet ∷ record { name = codes "laroux"; code = cleanup_comment } ∷ sheet ∷ []

sheet_other : text_eq sheet.name (codes "laroux") ≡ false
unfolding text_eq
sheet_other = refl

laroux_found : text_eq laroux.name (codes "laroux") ≡ true
unfolding text_eq
laroux_found = refl

pub book_remediated :
    sanitize_open listed (codes "remediate") (codes "laroux") book ≡ (ok tt, remediated_book)
unfolding sanitize_open sanitize_from apply_op text_eq
book_remediated = refl

sanitize_open-rm_module_example :
    (sanitize_open listed (codes "rm_module") (codes "laroux") book
      ≡ (if is_nil (sheet ∷ []) then ok tt else panic, sheet ∷ sheet ∷ []))
    × (sheet ∷ sheet ∷ [] ≡ (sheet ∷ []) ++ sheet ∷ [])
unfolding listed-IsExcel
sanitize_open-rm_module_example =
    sanitize_open-rm_module listed listed-IsExcel (codes "laroux") (sheet ∷ []) (sheet ∷ []) laroux
      book (sheet ∷ sheet ∷ []) refl refl refl (sheet_other, tt) laroux_found (sheet_other, tt) refl

-- A disk that saves but does not rename, and a file that Excel does not open.
abbrev pub disk : CleanEnv listed
disk = record {
  open_file = λ renamed p. if text_eq p [] then err insufficient_privilege else ok book;
  save_error = λ p. none;
  rename_error = λ p. some insufficient_privilege;
}

abbrev pub idle : Cleaner listed
idle = record {
  locked = false;
  workbooks_handle = true;
  current_workbook = none;
  cur_file_path = [];
  saved = [];
  renamed = [];
  err_c = [];
}

pub idle-IsReady : IsReady idle
idle-IsReady = record { not_locked = refl; handle = refl }

pub a_xls_opens : disk.open_file [] (codes "a.xls") ≡ ok book
unfolding text_eq
a_xls_opens = refl

book_emptied :
    sanitize_open listed (codes "rm_module") (codes "laroux") book ≡ (panic, sheet ∷ sheet ∷ [])
unfolding sanitize_open sanitize_from apply_op text_eq
book_emptied = refl

clean_file-remediated_example :
    ((clean_file listed disk (codes "remediate") (codes "laroux") (codes "a.xls") idle).1.saved
      ≡ [] ++ (codes "a.xls", remediated_book) ∷ [])
    × ((clean_file listed disk (codes "remediate") (codes "laroux") (codes "a.xls") idle).1.err_c
        ≡ [] ++ none ∷ [])
    × (remediated_book ≡ map (remediated (codes "laroux")) book)
unfolding listed-IsExcel
clean_file-remediated_example =
    clean_file-remediated listed listed-IsExcel disk (codes "laroux") (codes "a.xls") idle book
      remediated_book idle-IsReady a_xls_opens refl book_remediated

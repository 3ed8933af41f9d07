-- ===== src/Tests/ExcelSerial.antt =====
-- A document that is opened, sanitized and saved beside others that have not come yet.
use mathlib.Core.WellFounded.{Acc}
use cramc.Prelude.{
  ℕ, zero, suc, ◌+◌, ◌≡◌, refl, ap, ◌⊎◌, inl, inr, true, false, none, some, List, [], ◌∷◌, ◌++◌,
  arith, if◌then◌else◌, Bool-cases, length, replicate, any, Bytes, codes, text_eq, text_ne,
}
use mathlib.Core.List.{Memᴰ}
use cramc.Prelude.Outcome.{ok, err, invalid_input}
use cramc.Rpc.Server.{CleanTask}
use cramc.Excel.Sanitize.{sanitize_workbook, sanitize_open, sanitize_from, apply_op}
use cramc.Excel.Clean.{CleanEnv, Cleaner, open_workbook, finishing, reported}
use cramc.Excel.Serial.{
  has_lock, has_opened, has_reported, at_end, Run, went, acquire, open_ok, sanitize_ok, finish,
  Reach, here, next, begun,
}
use cramc.Excel.Serial.Midway.{one_by_one}
use cramc.Excel.Serial.Order.{IsAtRest, Lists, in_some_order}
use cramc.Excel.Sanitize.Total.{Returns}
use cramc.Excel.Serial.Ends.{Later, Finished, cleaning_ends}
use cramc.Excel.Serial.Saved.{Yields, saved_in, saved_once}
use cramc.Tests.Excel.{
  listed, listed-IsExcel, book, remediated_book, idle, idle-IsReady, book_remediated,
}

abbrev doc_path : ℕ → Bytes
doc_path i = replicate i b'a' ++ codes ".xls"

-- A disk where a file that was renamed cannot be opened any more.
abbrev shelf : CleanEnv listed
shelf = record {
  open_file = λ renamed p. if any (text_eq p) renamed then err invalid_input else ok book;
  save_error = λ p. none;
  rename_error = λ p. none;
}

abbrev task : ℕ → CleanTask
task i = record { path = doc_path i; action = codes "remediate"; dest_module = codes "laroux" }

abbrev opened_cleaner : Cleaner listed
opened_cleaner = record idle {
  locked = true;
  current_workbook = some book;
  cur_file_path = doc_path 3;
}

abbrev sanitized_cleaner : Cleaner listed
sanitized_cleaner =
    reported listed shelf none (record opened_cleaner { current_workbook = some remediated_book })

abbrev cleaned_cleaner : Cleaner listed
cleaned_cleaner = finishing listed shelf (doc_path 3) sanitized_cleaner

abbrev locked_run : Run listed
locked_run = went listed shelf task 3 has_lock (record idle { locked = true }) (begun idle)

abbrev opened_run : Run listed
opened_run = went listed shelf task 3 has_opened opened_cleaner locked_run

abbrev sanitized_run : Run listed
sanitized_run = went listed shelf task 3 has_reported sanitized_cleaner opened_run

abbrev cleaned_run : Run listed
cleaned_run = went listed shelf task 3 at_end cleaned_cleaner sanitized_run

opens :
    open_workbook listed shelf (doc_path 3) (record idle { locked = true })
    ≡ (ok tt, opened_cleaner)
unfolding open_workbook text_eq
opens = refl

sanitizes :
    sanitize_workbook listed (codes "remediate") (codes "laroux") (some book)
    ≡ (ok tt, some remediated_book)
unfolding sanitize_workbook sanitize_open sanitize_from apply_op text_eq
sanitizes = refl

cleaned_run-Reach : Reach listed shelf task (begun idle) cleaned_run
cleaned_run-Reach =
    next
      (next (next (next here (acquire 3 refl refl refl)) (open_ok 3 opened_cleaner refl opens refl))
        (sanitize_ok 3 (some remediated_book) refl sanitizes refl))
      (finish 3 refl refl)

cleaned_run-IsAtRest : IsAtRest listed shelf task cleaned_run
cleaned_run-IsAtRest j = ground arith

in_some_order_example :
    (order : List ℕ) × (cleaned_run.cleaner ≡ one_by_one listed shelf task order idle)
    × Lists listed shelf task order cleaned_run
in_some_order_example =
    in_some_order listed shelf task idle refl cleaned_run-Reach cleaned_run-IsAtRest

length-doc_path : (i : ℕ) → length (doc_path i) ≡ i + 4
length-doc_path zero = refl
length-doc_path (suc i) = omega (arith, length-doc_path i)

doc_path-apart : (i j : ℕ) → (task i).path ≡ (task j).path → i ≡ j
doc_path-apart i j e =
    let long : length (doc_path i) ≡ length (doc_path j) = ap (length {A = ℕ}) e in
    omega (arith, long, length-doc_path i, length-doc_path j)

any-text_eq :
    (p : Bytes) (renamed : List Bytes) → ¬ (Memᴰ p renamed) → any (text_eq p) renamed ≡ false
any-text_eq p [] n = refl
any-text_eq p (q ∷ renamed) n =
    rw (text_ne p q (λ e. n (Memᴰ.head e))) (any-text_eq p renamed (λ m. n (Memᴰ.tail m)))

shelf-Yields : (i : ℕ) → Yields listed shelf (task i) remediated_book
shelf-Yields i = record {
  w = book;
  result = ok tt;
  opens = λ renamed n. rw (any-text_eq (doc_path i) renamed n) refl;
  sanitizes = book_remediated;
  returns = λ e. cc;
  saves = refl;
}

saved_once_example :
    (order : List ℕ) × (cleaned_run.cleaner.saved
      ≡ [] ++ saved_in listed shelf task (λ i. remediated_book) shelf-Yields doc_path-apart order)
    × Lists listed shelf task order cleaned_run
saved_once_example =
    saved_once listed shelf task (λ i. remediated_book) shelf-Yields doc_path-apart idle
      idle-IsReady refl cleaned_run-Reach cleaned_run-IsAtRest

shelf-Returns : (renamed : List Bytes) (p : Bytes) → Returns (shelf.open_file renamed p)
shelf-Returns renamed p = elim (Bool-cases (any (text_eq p) renamed)) [
  | inl t ↦ rw t tt
  | inr f ↦ rw f tt
]

opened_run-Reach : Reach listed shelf task (begun idle) opened_run
opened_run-Reach =
    next (next here (acquire 3 refl refl refl)) (open_ok 3 opened_cleaner refl opens refl)

cleaning_ends_example :
    Acc (Later listed shelf task 5) opened_run
    × (Finished listed shelf task 5 opened_run
        ⊎ ((t : Run listed) × Later listed shelf task 5 t opened_run))
cleaning_ends_example =
    cleaning_ends listed shelf task 5 listed-IsExcel shelf-Returns (λ i. refl) idle refl
      opened_run-Reach (λ j h. ground arith)

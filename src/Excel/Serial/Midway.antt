-- ===== src/Excel/Serial/Midway.antt =====
-- How far a document is between its `Lock` and its end, from the worker as it took it.
use cramc.Prelude.{
  ℕ, ◌+◌, ◌≡◌, refl, sym, ap, ◌∙◌, ◌⊎◌, inl, inr, Bool, true, false, List, [], ◌∷◌, ◌==◌,
  if◌then◌else◌, arith, Bool-cases, Bytes,
}
use mathlib.Core.Path.{subst}
use cramc.Prelude.Outcome.{Outcome, ok, err, panic, blocked}
use cramc.Rpc.Server.{CleanTask}
use cramc.Excel.Com.{Excel}
use cramc.Excel.Clean.{CleanEnv, Cleaner, opened, after_open, open_workbook, finishing, clean_file}
use cramc.Excel.Serial.{Place, arriving, has_lock, has_opened, has_reported, at_end, Run, went}

abbrev pub is_idle : Place → Bool
is_idle arriving = true
is_idle at_end = true
is_idle _ = false

abbrev pub ended : Place → ℕ
ended at_end = 1
ended _ = 0

-- How often a document is in a list.
abbrev pub times : ℕ → List ℕ → ℕ
times j [] = 0
times j (i ∷ is) = (if j == i then 1 else 0) + times j is

pub same : (i : ℕ) → (i == i) ≡ true
same i = ground arith

module _ (x : Excel) (env : CleanEnv x) (tasks : ℕ → CleanTask) where
  abbrev pub clean_task : CleanTask → Cleaner x → Outcome (Unit {0}) × Cleaner x
  clean_task t c = clean_file x env t.action t.dest_module t.path c

  -- The documents cleaned one after the other, the last one first in the list.
  abbrev pub one_by_one : List ℕ → Cleaner x → Cleaner x
  one_by_one [] c = c
  one_by_one (i ∷ earlier) c = (clean_task (tasks i) (one_by_one earlier c)).1

  -- How far the document is that has the mutex, from the worker as it took it.
  abbrev pub Midway : CleanTask → Cleaner x → Place → Cleaner x → Type 0
  Midway t s has_lock c = c ≡ record s { locked = true }
  Midway t s has_opened c = open_workbook x env t.path (record s { locked = true }) ≡ (ok tt, c)
  Midway t s has_reported c = clean_task t s ≡ (ok tt, finishing x env t.path c)
  Midway t s _ c = ⊥

  pub record Free (order : List ℕ) (c0 : Cleaner x) (r : Run x) : Type 0 where
    pub state : r.cleaner ≡ one_by_one order c0
    pub free_before : (one_by_one order c0).locked ≡ false
    pub idle : (j : ℕ) → is_idle (r.place j) ≡ true
    pub counted : (j : ℕ) → times j order ≡ ended (r.place j)

  pub record Busy (i : ℕ) (order : List ℕ) (c0 : Cleaner x) (r : Run x) : Type 0 where
    pub middle : Midway (tasks i) (one_by_one order c0) (r.place i) r.cleaner
    pub free_before : (one_by_one order c0).locked ≡ false
    pub held : r.cleaner.locked ≡ true
    pub others : (j : ℕ) → is_idle (r.place j) ≡ false → j ≡ i
    pub counted : (j : ℕ) → times j order ≡ ended (r.place j)

  abbrev pub IsSerial : Cleaner x → Run x → Type 0
  IsSerial c0 r = (order : List ℕ) × (Free order c0 r ⊎ ((i : ℕ) × Busy i order c0 r))

  pub went-Busy :
      {c0 : Cleaner x} {r : Run x} (i : ℕ) (order : List ℕ) (to : Place) (c : Cleaner x)
      → Busy i order c0 r
      → ended (r.place i) ≡ 0
      → ended to ≡ 0
      → c.locked ≡ true
      → Midway (tasks i) (one_by_one order c0) to c
      → Busy i order c0 (went x env tasks i to c r)
  went-Busy i order to c k e e' l m = record {
    middle = rw (same i) m;
    free_before = k.free_before;
    held = l;
    others = λ j n. ground (arith, k.others j);
    counted = λ j. ground (arith, k.counted j);
  }

  pub went-Free :
      {c0 : Cleaner x} {r : Run x} (i : ℕ) (order : List ℕ) (c : Cleaner x)
      → Busy i order c0 r
      → ended (r.place i) ≡ 0
      → c.locked ≡ false
      → clean_task (tasks i) (one_by_one order c0) ≡ (ok tt, c)
      → Free (i ∷ order) c0 (went x env tasks i at_end c r)
  went-Free {c0} {r} i order c k e l m =
      let state : c ≡ one_by_one (i ∷ order) c0 =
        sym (ap (λ (h : Outcome (Unit {0}) × Cleaner x). h.1) m) in
      record {
        state = state;
        free_before = ap (λ (c : Cleaner x). c.locked) (sym state) ∙ l;
        idle = λ j. ground (arith, k.others j, Bool-cases (is_idle (r.place j)));
        counted = λ j. ground (arith, k.counted j);
      }

  opened_locked :
      (p : Bytes) (c : Cleaner x) (o : Outcome x.Workbook)
      → (opened x env p o c).1.locked ≡ c.locked
  opened_locked p c (ok w) = refl
  opened_locked p c (err e) = refl
  opened_locked p c panic = refl
  opened_locked p c blocked = refl

  pub open_workbook_locked :
      (p : Bytes) (c : Cleaner x) → (open_workbook x env p c).1.locked ≡ c.locked
  unfolding open_workbook
  open_workbook_locked p c = elim (Bool-cases c.workbooks_handle) [
    | inl h ↦ simp h (opened_locked p c (env.open_file c.renamed p))
    | inr h ↦ simp h
  ]

  pub finishing_locked : (p : Bytes) (c : Cleaner x) → (finishing x env p c).locked ≡ false
  unfolding finishing
  finishing_locked p c = refl

  pub clean_file-after_open :
      (t : CleanTask) (s : Cleaner x)
      → s.locked ≡ false
      → clean_task t s
        ≡ after_open x env t.action t.dest_module t.path
            (open_workbook x env t.path (record s { locked = true }))
  unfolding clean_file
  clean_file-after_open t s l = rw l

  -- The document that makes a step behind its `Lock` is the one that has the mutex.
  pub Busy-at :
      {c0 : Cleaner x} {r : Run x} {i : ℕ} (j : ℕ) {order : List ℕ} {q : Place}
      → r.place j ≡ q
      → is_idle q ≡ false
      → Busy i order c0 r
      → Busy j order c0 r × Midway (tasks j) (one_by_one order c0) q r.cleaner
  Busy-at {c0} {r} j {order} {q} a n k =
      let b : Busy j order c0 r =
        subst (λ i. Busy i order c0 r) (sym (k.others j (ground arith))) k in
      (b, subst (λ q. Midway (tasks j) (one_by_one order c0) q r.cleaner) a b.middle)

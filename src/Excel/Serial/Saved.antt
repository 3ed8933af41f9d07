-- ===== src/Excel/Serial/Saved.antt =====
-- What is saved when the goroutines of the documents have run.
use mathlib.Core.List.{Memᴰ}
use mathlib.Core.List.Memᴰ
use cramc.Prelude.{
  ℕ, ◌≤◌, ◌≡◌, sym, ap, ◌∙◌, ◌≢◌, inl, inr, Option, none, some, List, [], ◌∷◌, ◌++◌, append-nil,
  append_assoc, arith, Bytes,
}
use cramc.Prelude.Outcome.{GoError, Outcome, ok, blocked}
use cramc.Rpc.Server.{CleanTask}
use cramc.Excel.Com.{Excel}
use cramc.Excel.Sanitize.{sanitize_open}
use cramc.Excel.Clean.{CleanEnv, Cleaner, logged}
use cramc.Excel.Clean.Outcomes.{IsReady, clean_file-report}
use cramc.Excel.Serial.{
  Place, arriving, has_lock, has_opened, has_reported, at_end, Run, Reach, begun,
}
use cramc.Excel.Serial.Midway.{one_by_one, times, ended, same}
use cramc.Excel.Serial.Order.{IsAtRest, Lists, in_some_order}

-- Excel opens the document of a task while its file is not renamed, sanitizing it comes back, and
-- it can be saved.
pub record Yields (x : Excel) (env : CleanEnv x) (t : CleanTask) (w' : x.Workbook) : Type 0 where
  pub w : x.Workbook
  pub result : Outcome (Unit {0})
  pub opens : (renamed : List Bytes) → ¬ (Memᴰ t.path renamed) → env.open_file renamed t.path ≡ ok w
  pub sanitizes : sanitize_open x t.action t.dest_module w ≡ (result, w')
  pub returns : result ≢ blocked
  pub saves : env.save_error t.path ≡ none

logged-mem :
    (x : Excel) (env : CleanEnv x) (e : Option GoError) {p q : Bytes}
    → Memᴰ p (logged x env e q)
    → p ≡ q
logged-mem x env none (Memᴰ.head e) = e
logged-mem x env none (Memᴰ.tail m) = elim m [ ]
logged-mem x env (some g) m = elim m [ ]

ended_max : (p : Place) → ended p ≤ 1
ended_max arriving = omega arith
ended_max has_lock = omega arith
ended_max has_opened = omega arith
ended_max has_reported = omega arith
ended_max at_end = omega arith

module _ (x : Excel) (env : CleanEnv x) (tasks : ℕ → CleanTask) (leaves : ℕ → x.Workbook)
    (yields : (i : ℕ) → Yields x env (tasks i) (leaves i))
    (apart : (i j : ℕ) → (tasks i).path ≡ (tasks j).path → i ≡ j) where
  -- The last one of the order stands first.
  abbrev pub saved_in : List ℕ → List (Bytes × x.Workbook)
  saved_in [] = []
  saved_in (i ∷ earlier) = saved_in earlier ++ ((tasks i).path, leaves i) ∷ []

  -- What holds behind the documents of an order: what is saved, and no other document is renamed.
  record Done (c0 : Cleaner x) (order : List ℕ) : Type 0 where
    ready : IsReady (one_by_one x env tasks order c0)
    saved : (one_by_one x env tasks order c0).saved ≡ c0.saved ++ saved_in order
    unrenamed :
        (i : ℕ)
        → times i order ≡ 0
        → ¬ (Memᴰ (tasks i).path (one_by_one x env tasks order c0).renamed)

  one_more-Done :
      (c0 : Cleaner x) (i : ℕ) (order : List ℕ)
      → times i order ≡ 0
      → Done c0 order
      → Done c0 (i ∷ order)
  one_more-Done c0 i order first k =
      let before = one_by_one x env tasks order c0 in
      let y = yields i in
      let state =
        ap (λ (h : Outcome (Unit {0}) × Cleaner x). h.1)
          (clean_file-report x env (tasks i).action (tasks i).dest_module (tasks i).path before y.w
            (leaves i) y.result k.ready (y.opens before.renamed (k.unrenamed i first)) y.sanitizes
            y.returns) in
      record {
        ready = record {
          not_locked = ap (λ (c : Cleaner x). c.locked) state;
          handle = ap (λ (c : Cleaner x). c.workbooks_handle) state;
        };
        saved =
            ap (λ (c : Cleaner x). c.saved) state
            ∙ rw (y.saves) (rw (k.saved) (append_assoc c0.saved (saved_in order) _));
        unrenamed = λ j n m.
            (let other : ¬ (j ≡ i) = λ e. ground (arith, e, n) in
              let none_before : times j order ≡ 0 = ground (arith, n) in
              elim (Memᴰ.append_cases before.renamed
                (rw (ap (λ (c : Cleaner x). c.renamed) state) at m)) [
                  | inl earlier ↦ k.unrenamed j none_before earlier
                  | inr now ↦
                      other (apart j i (logged-mem x env (env.rename_error (tasks i).path) now))
                ]);
      }

  all-Done :
      (c0 : Cleaner x) (order : List ℕ)
      → IsReady c0
      → c0.renamed ≡ []
      → ((i : ℕ) → times i order ≤ 1)
      → Done c0 order
  all-Done c0 [] ready fresh once = record {
    ready = ready;
    saved = sym (append-nil c0.saved);
    unrenamed = λ i n m. (let m' : Memᴰ (tasks i).path [] = rw fresh at m in elim m' [ ]);
  }
  all-Done c0 (i ∷ order) ready fresh once =
      one_more-Done c0 i order (let o = once i in ground (arith, same i))
        (all-Done c0 order ready fresh (λ j. let o = once j in ground arith))

  -- Documents of different paths that Excel opens until they are renamed, that are sanitized
  -- without waiting and can be saved: however their goroutines run while no timeout fires and no
  -- call panics, when none of them is at work what was saved is the sanitized workbook of each
  -- finished document under its path, once, in some order, and nothing else.
  pub saved_once :
      (c0 : Cleaner x) {r : Run x}
      → IsReady c0
      → c0.renamed ≡ []
      → Reach x env tasks (begun c0) r
      → IsAtRest x env tasks r
      → (order : List ℕ) × (r.cleaner.saved ≡ c0.saved ++ saved_in order)
        × Lists x env tasks order r
  saved_once c0 {r} ready fresh reached rest =
      let (order, state, lists) = in_some_order x env tasks c0 ready.not_locked reached rest in
      (
        order,
        ap (λ (c : Cleaner x). c.saved) state
            ∙ (all-Done c0 order ready fresh (λ i. rw (lists i) (ended_max (r.place i)))).saved,
        lists,
      )

-- ===== src/Excel/Serial/Progress.antt =====
-- The goroutines of the documents where every call of Excel comes back.
use cramc.Prelude.{
  ℕ, ◌≡◌, refl, ap, ◌∙◌, ◌≢◌, ◌⊎◌, inl, inr, true, false, Option, List, ◌==◌, Bool-cases, Bytes,
}
use cramc.Prelude.Outcome.{Outcome, ok, err, panic, blocked}
use cramc.Rpc.Server.{CleanTask}
use cramc.Excel.Com.{Excel}
use cramc.Excel.Sanitize.{sanitize_workbook}
use cramc.Excel.Sanitize.Total.{Returns}
use cramc.Excel.Clean.{CleanEnv, Cleaner, opened, open_workbook}
use cramc.Excel.Serial.{
  Place, arriving, has_lock, has_opened, has_reported, at_end, Run, Step, acquire, open_ok,
  open_err, sanitize_ok, sanitize_err, finish, Reach, begun,
}
use cramc.Excel.Serial.Midway.{is_idle, Midway, IsSerial}
use cramc.Excel.Serial.Order.{Reach-IsSerial, begun-IsSerial}

module _ (x : Excel) (env : CleanEnv x) (tasks : ℕ → CleanTask)
    (opens : (renamed : List Bytes) (p : Bytes) → Returns (env.open_file renamed p))
    (sanitizes : (i : ℕ) (w : Option x.Workbook)
      → Returns (sanitize_workbook x (tasks i).action (tasks i).dest_module w).0) where
  open_workbook-Returns : (p : Bytes) (c : Cleaner x) → Returns (open_workbook x env p c).0
  unfolding open_workbook
  open_workbook-Returns p c = elim (Bool-cases c.workbooks_handle) [
    | inl h ↦ simp h (opened_returns (env.open_file c.renamed p) (opens c.renamed p))
    | inr h ↦ simp h tt
  ]
    where
      opened_returns : (o : Outcome x.Workbook) → Returns o → Returns (opened x env p o c).0
      opened_returns (ok w) r = tt
      opened_returns (err e) r = tt
      opened_returns panic r = r
      opened_returns blocked r = r

  -- A step of a document, which leaves the others where they are.
  abbrev pub StepOf : ℕ → Run x → Run x → Type 0
  StepOf i r t = Step x env tasks r t × ((j : ℕ) → (j == i) ≡ false → t.place j ≡ r.place j)

  opening :
      (r : Run x) (i : ℕ) (o : Outcome (Unit {0})) (c : Cleaner x)
      → r.place i ≡ has_lock
      → Returns o
      → open_workbook x env (tasks i).path r.cleaner ≡ (o, c)
      → (t : Run x) × StepOf i r t
  opening r i (ok u) c a k e = (_, (open_ok i c a e refl, λ j d. rw d refl))
  opening r i (err g) c a k e = (_, (open_err i g c a e refl, λ j d. rw d refl))
  opening r i panic c a k e = absurd k
  opening r i blocked c a k e = absurd k

  sanitizing :
      (r : Run x) (i : ℕ) (o : Outcome (Unit {0})) (w : Option x.Workbook)
      → r.place i ≡ has_opened
      → Returns o
      → sanitize_workbook x (tasks i).action (tasks i).dest_module r.cleaner.current_workbook
        ≡ (o, w)
      → (t : Run x) × StepOf i r t
  sanitizing r i (ok u) w a k e = (_, (sanitize_ok i w a e refl, λ j d. rw d refl))
  sanitizing r i (err g) w a k e = (_, (sanitize_err i g w a e refl, λ j d. rw d refl))
  sanitizing r i panic w a k e = absurd k
  sanitizing r i blocked w a k e = absurd k

  Midway-step :
      (r : Run x) (i : ℕ) (q : Place) (s : Cleaner x)
      → r.place i ≡ q
      → Midway x env tasks (tasks i) s q r.cleaner
      → (t : Run x) × StepOf i r t
  Midway-step r i arriving s a m = absurd m
  Midway-step r i has_lock s a m =
      opening r i (open_workbook x env (tasks i).path r.cleaner).0 _ a
        (open_workbook-Returns (tasks i).path r.cleaner) refl
  Midway-step r i has_opened s a m =
      sanitizing r i
        (sanitize_workbook x (tasks i).action (tasks i).dest_module r.cleaner.current_workbook).0 _
        a (sanitizes i r.cleaner.current_workbook) refl
  Midway-step r i has_reported s a m = (_, (finish i a refl, λ j d. rw d refl))
  Midway-step r i at_end s a m = absurd m

  free_step :
      (r : Run x) (i : ℕ) (q : Place)
      → r.place i ≡ q
      → is_idle q ≡ true
      → q ≢ at_end
      → r.cleaner.locked ≡ false
      → (t : Run x) × StepOf i r t
  free_step r i arriving a k n l = (_, (acquire i a l refl, λ j d. rw d refl))
  free_step r i has_lock a k n l = cc
  free_step r i has_opened a k n l = cc
  free_step r i has_reported a k n l = cc
  free_step r i at_end a k n l = absurd (n refl)

  serial_step :
      (c0 : Cleaner x) (r : Run x) (i : ℕ)
      → r.place i ≢ at_end
      → IsSerial x env tasks c0 r
      → (j : ℕ) × (((j ≡ i) ⊎ (is_idle (r.place j) ≡ false)) × ((t : Run x) × StepOf j r t))
  serial_step c0 r i n (order, inl f) = (
    i,
    (
      inl refl,
      free_step r i (r.place i) refl (f.idle i) n
          (ap (λ (c : Cleaner x). c.locked) f.state ∙ f.free_before),
    ),
  )
  serial_step c0 r i n (order, inr (j, b)) = (
    j,
    (inr (Midway-not_idle _ _ _ (r.place j) b.middle), Midway-step r j (r.place j) _ refl b.middle),
  )
    where
      Midway-not_idle :
          (t : CleanTask) (s c : Cleaner x) (q : Place)
          → Midway x env tasks t s q c
          → is_idle q ≡ false
      Midway-not_idle t s c arriving m = absurd m
      Midway-not_idle t s c has_lock m = refl
      Midway-not_idle t s c has_opened m = refl
      Midway-not_idle t s c has_reported m = refl
      Midway-not_idle t s c at_end m = absurd m

  -- As long as some document is not at its end, some goroutine can go on: its own, or that of one
  -- that is past its `Lock`.
  pub cleaning_goes_on :
      (c0 : Cleaner x) {r : Run x} (i : ℕ)
      → c0.locked ≡ false
      → Reach x env tasks (begun c0) r
      → r.place i ≢ at_end
      → (j : ℕ) × (((j ≡ i) ⊎ (is_idle (r.place j) ≡ false)) × ((t : Run x) × StepOf j r t))
  cleaning_goes_on c0 {r} i l reached n =
      serial_step c0 r i n (Reach-IsSerial x env tasks c0 (begun-IsSerial x env tasks c0 l) reached)

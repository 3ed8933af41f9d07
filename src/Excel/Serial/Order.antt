-- ===== src/Excel/Serial/Order.antt =====
-- The goroutines of the documents against cleaning them one after the other.
use cramc.Prelude.{ℕ, ◌≡◌, refl, sym, ap, ◌∙◌, inl, inr, true, false, List, [], ◌∷◌, arith}
use cramc.Prelude.Outcome.{Outcome}
use cramc.Rpc.Server.{CleanTask}
use cramc.Excel.Com.{Excel}
use cramc.Excel.Clean.{CleanEnv, Cleaner, open_workbook}
use cramc.Excel.Serial.{
  Place, arriving, has_lock, has_opened, has_reported, at_end, Run, Step, acquire, open_ok,
  open_err, sanitize_ok, sanitize_err, finish, Reach, here, next, begun,
}
use cramc.Excel.Serial.Midway.{
  is_idle, ended, times, one_by_one, Midway, Free, Busy, IsSerial, same, went-Busy, went-Free,
  open_workbook_locked, finishing_locked, clean_file-after_open, Busy-at,
}

module _ (x : Excel) (env : CleanEnv x) (tasks : ℕ → CleanTask) where
  Free-step :
      {c0 : Cleaner x} {r t : Run x} (order : List ℕ)
      → Step x env tasks r t
      → Free x env tasks order c0 r
      → IsSerial x env tasks c0 t
  Free-step {c0} {r} order (acquire i a l e) k = rw e (
    order,
    inr (
      i,
      record {
        middle = rw (same i) (ap (λ (c : Cleaner x). record c { locked = true }) k.state);
        free_before = k.free_before;
        held = refl;
        others = λ j n. ground (arith, k.idle j);
        counted = λ j. ground (arith, k.counted j);
      },
    ),
  )
  Free-step order (open_ok i c a o e) k = absurd (ground (arith, k.idle i))
  Free-step order (open_err i g c a o e) k = absurd (ground (arith, k.idle i))
  Free-step order (sanitize_ok i w a o e) k = absurd (ground (arith, k.idle i))
  Free-step order (sanitize_err i g w a o e) k = absurd (ground (arith, k.idle i))
  Free-step order (finish i a e) k = absurd (ground (arith, k.idle i))

  Busy-step :
      {c0 : Cleaner x} {r t : Run x} (i : ℕ) (order : List ℕ)
      → Step x env tasks r t
      → Busy x env tasks i order c0 r
      → IsSerial x env tasks c0 t
  Busy-step i order (acquire j a l e) k = absurd (ground (arith, k.held))
  Busy-step {c0} {r} i order (open_ok j c a o e) k0 =
      let (k, m) = Busy-at x env tasks j a refl k0 in
      rw e (
        order,
        inr (
          j,
          went-Busy x env tasks j order has_opened c k (rw a) refl
              (ap (λ (h : Outcome (Unit {0}) × Cleaner x). h.1.locked) (sym o)
                ∙ open_workbook_locked x env tasks (tasks j).path r.cleaner
                ∙ k.held)
              (ap (λ (c : Cleaner x). open_workbook x env (tasks j).path c) (sym m) ∙ o),
        ),
      )
  Busy-step {c0} {r} i order (open_err j g c a o e) k0 =
      let (k, m) = Busy-at x env tasks j a refl k0 in
      rw e (
        j ∷ order,
        inl (
            went-Free x env tasks j order _ k (rw a) refl (
              clean_file-after_open x env tasks (tasks j) (one_by_one x env tasks order c0)
                k.free_before
              ∙ rw (← m) (rw o))),
      )
  Busy-step {c0} {r} i order (sanitize_ok j w a o e) k0 =
      let (k, m) = Busy-at x env tasks j a refl k0 in
      rw e (
        order,
        inr (
          j,
          went-Busy x env tasks j order has_reported _ k (rw a) refl k.held (
              clean_file-after_open x env tasks (tasks j) (one_by_one x env tasks order c0)
                k.free_before
              ∙ rw m (rw o)),
        ),
      )
  Busy-step {c0} {r} i order (sanitize_err j g w a o e) k0 =
      let (k, m) = Busy-at x env tasks j a refl k0 in
      rw e (
        order,
        inr (
          j,
          went-Busy x env tasks j order has_reported _ k (rw a) refl k.held (
              clean_file-after_open x env tasks (tasks j) (one_by_one x env tasks order c0)
                k.free_before
              ∙ rw m (rw o)),
        ),
      )
  Busy-step {c0} {r} i order (finish j a e) k0 =
      let (k, m) = Busy-at x env tasks j a refl k0 in
      rw e (
        j ∷ order,
        inl (
            went-Free x env tasks j order _ k (rw a)
              (finishing_locked x env tasks (tasks j).path r.cleaner) m),
      )

  either_step :
      (c0 : Cleaner x) {r t : Run x}
      → Step x env tasks r t
      → IsSerial x env tasks c0 r
      → IsSerial x env tasks c0 t
  either_step c0 s (order, inl f) = Free-step order s f
  either_step c0 s (order, inr (i, b)) = Busy-step i order s b

  pub Reach-IsSerial :
      (c0 : Cleaner x) {r t : Run x}
      → IsSerial x env tasks c0 r
      → Reach x env tasks r t
      → IsSerial x env tasks c0 t
  Reach-IsSerial c0 k here = k
  Reach-IsSerial c0 k (next reached s) = either_step c0 s (Reach-IsSerial c0 k reached)

  pub begun-IsSerial : (c0 : Cleaner x) → c0.locked ≡ false → IsSerial x env tasks c0 (begun c0)
  begun-IsSerial c0 l =
      ([], inl (record { state = refl; free_before = l; idle = λ j. refl; counted = λ j. refl }))

  -- No document is between its `Lock` and its end.
  abbrev pub IsAtRest : Run x → Type 0
  IsAtRest r = (j : ℕ) → is_idle (r.place j) ≡ true

  -- What the list of the documents cleaned so far says about their places.
  abbrev pub Lists : List ℕ → Run x → Type 0
  Lists order r = (j : ℕ) → times j order ≡ ended (r.place j)

  not-Midway :
      (t : CleanTask) (s c : Cleaner x) (q : Place)
      → is_idle q ≡ true
      → Midway x env tasks t s q c
      → ⊥
  not-Midway t s c arriving h m = m
  not-Midway t s c has_lock h m = cc
  not-Midway t s c has_opened h m = cc
  not-Midway t s c has_reported h m = cc
  not-Midway t s c at_end h m = m

  at_rest :
      (c0 : Cleaner x) (r : Run x)
      → IsAtRest r
      → IsSerial x env tasks c0 r
      → (order : List ℕ) × (r.cleaner ≡ one_by_one x env tasks order c0) × Lists order r
  at_rest c0 r rest (order, inl f) = (order, f.state, f.counted)
  at_rest c0 r rest (order, inr (i, b)) = absurd (
      not-Midway (tasks i) (one_by_one x env tasks order c0) r.cleaner (r.place i) (rest i)
        b.middle)

  -- However the goroutines of the documents run while no timeout fires and no call panics, when none of them is at work the worker is as if
  -- the finished documents had been cleaned one after the other, each once, in some order.
  pub in_some_order :
      (c0 : Cleaner x) {r : Run x}
      → c0.locked ≡ false
      → Reach x env tasks (begun c0) r
      → IsAtRest r
      → (order : List ℕ) × (r.cleaner ≡ one_by_one x env tasks order c0) × Lists order r
  in_some_order c0 {r} l reached rest =
      at_rest c0 r rest (Reach-IsSerial c0 (begun-IsSerial c0 l) reached)

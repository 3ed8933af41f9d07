-- ===== src/Excel/Serial/Ends.antt =====
-- The ends of the runs of finitely many documents through the privileged helper's Excel.
use mathlib.Core.WellFounded.{Acc}
use cramc.Prelude.{
  ℕ, zero, suc, ◌+◌, ◌≤◌, ◌<◌, ◌≡◌, refl, sym, ap, ◌∙◌, ◌≢◌, ◌⊎◌, inl, inr, true, false, Option,
  List, arith, ltb, ◌==◌, Bool-cases, Bytes, codes,
}
use cramc.Rpc.Server.{CleanTask}
use cramc.Excel.Com.{Excel, IsExcel}
use cramc.Excel.Sanitize.{sanitize_workbook}
use cramc.Excel.Sanitize.Total.{Returns, sanitize_workbook-Returns}
use cramc.Excel.Clean.{CleanEnv, Cleaner}
use cramc.Excel.Serial.{
  Place, arriving, has_lock, has_opened, has_reported, at_end, Run, Step, acquire, open_ok,
  open_err, sanitize_ok, sanitize_err, finish, Reach, begun, went,
}
use cramc.Excel.Serial.Midway.{is_idle, same}
use cramc.Excel.Serial.Progress.{StepOf, cleaning_goes_on}

-- The steps that a document has left at most.
abbrev left : Place → ℕ
left arriving = 4
left has_lock = 3
left has_opened = 2
left has_reported = 1
left at_end = 0

left_max : (p : Place) → left p ≤ 4
left_max arriving = omega arith
left_max has_lock = omega arith
left_max has_opened = omega arith
left_max has_reported = omega arith
left_max at_end = omega arith

abbrev total : ℕ → (ℕ → ℕ) → ℕ
total zero f = 0
total (suc n) f = total n f + f n

total_same :
    (n i : ℕ) (f g : ℕ → ℕ)
    → n ≤ i
    → ((j : ℕ) → (j == i) ≡ false → g j ≡ f j)
    → total n g ≡ total n f
total_same zero i f g h k = refl
total_same (suc n) i f g h k =
    let rest = total_same n i f g (omega arith) k in
    let last = k n (ground arith) in omega (arith, rest, last)

total_less :
    (n i : ℕ) (f g : ℕ → ℕ)
    → i < n
    → g i < f i
    → ((j : ℕ) → (j == i) ≡ false → g j ≡ f j)
    → total n g < total n f
total_less zero i f g h l k = absurd (omega arith)
total_less (suc n) i f g h l k = elim (Bool-cases (n == i)) [
  | inl e ↦
      let at_i : n ≡ i = ground arith in
      let rest = total_same n i f g (omega arith) k in
      let last : g n < f n = rw at_i l in omega (arith, rest, last)
  | inr d ↦
      let rest = total_less n i f g (ground arith) l k in
      let last = k n d in omega (arith, rest, last)
]

-- The first `n` documents are at their end, or one of them is not.
all_or_one :
    (n : ℕ) (p : ℕ → Place)
    → ((i : ℕ) → i < n → p i ≡ at_end) ⊎ ((i : ℕ) × ((i < n) × (p i ≢ at_end)))
all_or_one zero p = inl (λ i h. absurd (omega arith))
all_or_one (suc n) p = elim (all_or_one n p) [
  | inl all ↦ elim (at_end-or (p n)) [
    | inl e ↦ inl (λ i h. elim (Bool-cases (i == n)) [
      | inl s ↦ ap p (ground arith) ∙ e
      | inr d ↦ all i (ground arith)
    ])
    | inr d ↦ inr (n, (omega arith, d))
  ]
  | inr (i, (h, d)) ↦ inr (i, (omega arith, d))
]
  where
    at_end-or : (q : Place) → (q ≡ at_end) ⊎ (q ≢ at_end)
    at_end-or at_end = inl refl
    at_end-or arriving = inr (λ e. cc)
    at_end-or has_lock = inr (λ e. cc)
    at_end-or has_opened = inr (λ e. cc)
    at_end-or has_reported = inr (λ e. cc)

module _ (x : Excel) (env : CleanEnv x) (tasks : ℕ → CleanTask) (n : ℕ) where
  -- Only the first `n` documents have come.
  abbrev pub Among : Run x → Type 0
  Among r = (j : ℕ) → n ≤ j → r.place j ≡ arriving

  -- A step into the second state, as the order in which the runs descend.
  abbrev pub Later : Run x → Run x → Type 0
  Later t r = Step x env tasks r t × Among t

  -- The first `n` documents are at their end.
  abbrev pub Finished : Run x → Type 0
  Finished r = (j : ℕ) → j < n → r.place j ≡ at_end

  abbrev work : Run x → ℕ
  work r = total n (λ j. left (r.place j))

  work-went :
      (r t : Run x) (i : ℕ) (from to : Place) (c : Cleaner x)
      → r.place i ≡ from
      → left to < left from
      → t ≡ went x env tasks i to c r
      → Among t
      → work t < work r
  work-went r t i from to c a l e among =
      total_less n i (λ j. left (r.place j)) (λ j. left (t.place j)) came down others
    where
      at_i : t.place i ≡ to
      at_i = rw e (rw (same i) refl)

      came : i < n
      came = elim (Bool-cases (ltb i n)) [
        | inl h ↦ ground arith
        | inr h ↦
            let four : left (t.place i) ≡ 4 = ap left (among i (ground arith)) in
            let less : left to ≡ 4 = ap left (sym at_i) ∙ four in
            absurd (omega (arith, less, l, left_max from))
      ]

      down : left (t.place i) < left (r.place i)
      down = rw at_i (rw a l)

      others : (j : ℕ) → (j == i) ≡ false → left (t.place j) ≡ left (r.place j)
      others j d = rw e (rw d refl)

  Later-work : {r t : Run x} → Later t r → work t < work r
  Later-work {r} {t} (acquire i a l e, among) =
      work-went r t i arriving has_lock _ a (omega arith) e among
  Later-work {r} {t} (open_ok i c a o e, among) =
      work-went r t i has_lock has_opened _ a (omega arith) e among
  Later-work {r} {t} (open_err i g c a o e, among) =
      work-went r t i has_lock at_end _ a (omega arith) e among
  Later-work {r} {t} (sanitize_ok i w a o e, among) =
      work-went r t i has_opened has_reported _ a (omega arith) e among
  Later-work {r} {t} (sanitize_err i g w a o e, among) =
      work-went r t i has_opened has_reported _ a (omega arith) e among
  Later-work {r} {t} (finish i a e, among) =
      work-went r t i has_reported at_end _ a (omega arith) e among

  Acc-work : (k : ℕ) (r : Run x) → work r < k → Acc Later r
  Acc-work zero r h = absurd (omega arith)
  Acc-work (suc k) r h = Acc.intro r (λ t s. Acc-work k t (omega (arith, Later-work s)))

  module _ (laws : IsExcel x)
      (opens : (renamed : List Bytes) (p : Bytes) → Returns (env.open_file renamed p))
      (remediates : (i : ℕ) → (tasks i).action ≡ codes "remediate") where
    sanitizes :
        (i : ℕ) (w : Option x.Workbook)
        → Returns (sanitize_workbook x (tasks i).action (tasks i).dest_module w).0
    sanitizes i w = rw (remediates i) (sanitize_workbook-Returns x laws (tasks i).dest_module w)

    Later-of :
        {r : Run x} (i j : ℕ)
        → i < n
        → Among r
        → (j ≡ i) ⊎ (is_idle (r.place j) ≡ false)
        → (t : Run x) × StepOf x env tasks opens sanitizes j r t
        → (t : Run x) × Later t r
    Later-of {r} i j h among which (t, (s, others)) =
        (t, (s, λ k le. others k (apart k le which) ∙ among k le))
      where
        apart : (k : ℕ) → n ≤ k → (j ≡ i) ⊎ (is_idle (r.place j) ≡ false) → (k == j) ≡ false
        apart k le (inl e) = ground arith
        apart k le (inr d) = elim (Bool-cases (k == j)) [
          | inl e ↦
              (let at_k : j ≡ k = ground arith in
                let idle : is_idle (r.place j) ≡ true = rw at_k (rw (among k le) refl) in
                absurd (ground (arith, idle, d)))
          | inr f ↦ f
        ]

    -- Finitely many documents that are to be remediated, with no timeout firing, and an Excel that
    -- keeps its laws and whose opening of a file comes back with a value or an error: every run of
    -- their goroutines is finite, and it can go on until each document is at its end.
    pub cleaning_ends :
        (c0 : Cleaner x) {r : Run x}
        → c0.locked ≡ false
        → Reach x env tasks (begun c0) r
        → Among r
        → Acc Later r × (Finished r ⊎ ((t : Run x) × Later t r))
    cleaning_ends c0 {r} l reached among = (
      Acc-work (suc (work r)) r (omega arith),
      elim (all_or_one n r.place) [
        | inl all ↦ inl all
        | inr (i, (h, d)) ↦
            let (j, (which, s)) = cleaning_goes_on x env tasks opens sanitizes c0 i l reached d in
            inr (Later-of i j h among which s)
      ],
    )

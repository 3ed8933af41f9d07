-- ===== src/Pipeline/Queues/Ends.antt =====
-- The ends of the runs of the goroutines around the two queues (gocode/cmd/aioagent/main.go).
use mathlib.Core.WellFounded.{Acc}
use cramc.Prelude.{
  ℕ, zero, suc, ◌<◌, ◌≡◌, refl, ◌⊎◌, inl, inr, true, false, List, [], ◌∷◌, arith, Bool-cases,
}
use cramc.Common.{IpcSingleDocToBeSanitized, HardeningAction}
use cramc.Pipeline.{Sent}
use cramc.Pipeline.Queues.{Queues, Step, take_doc, take_hardening, work, Step-work, sending, GoesOn}

-- A step into the second state, as the order in which the runs descend.
abbrev pub After : Queues → Queues → Type 0
After r q = Step q r

Acc-work : (n : ℕ) (q : Queues) → work q < n → Acc After q
Acc-work zero q h = absurd (omega arith)
Acc-work (suc n) q h = Acc.intro q (λ r st. Acc-work n r (omega (arith, Step-work st)))

-- All that there was to send is sent and taken.
abbrev pub IsEmpty : Queues → Type 0
IsEmpty q = (q.remaining ≡ []) × (q.sanitize_queue ≡ []) × (q.hardening_queue ≡ [])

IsEmpty-or_step :
    (q : Queues) (sends : List Sent) (docs : List IpcSingleDocToBeSanitized)
    (actions : List HardeningAction)
    → q.remaining ≡ sends
    → q.sanitize_queue ≡ docs
    → q.hardening_queue ≡ actions
    → q.sanitizer_runs ≡ true
    → q.hardener_runs ≡ true
    → IsEmpty q ⊎ ((r : Queues) × GoesOn q r)
IsEmpty-or_step q (s ∷ sends) docs actions e d a k l = inr (sending q (s ∷ sends) e (λ n. cc) k l)
IsEmpty-or_step q [] (doc ∷ docs) actions e d a k l = inr (_, (take_doc doc docs k d refl, refl))
IsEmpty-or_step q [] [] (action ∷ actions) e d a k l =
    inr (_, (take_hardening action actions l a refl, refl))
IsEmpty-or_step q [] [] [] e d a k l = inl (e, d, a)

-- From any state of the queues every run of the goroutines is finite, and as long as the sanitizer
-- and the hardener are running, neither having come to wait for ever, it can go on until all there
-- was to send is sent and taken.
pub queues_end :
    (r : Queues)
    → Acc After r
      × ((IsEmpty r ⊎ ((t : Queues) × GoesOn r t))
          ⊎ ((r.sanitizer_runs ≡ false) ⊎ (r.hardener_runs ≡ false)))
queues_end r = (
  Acc-work (suc (work r)) r (omega arith),
  elim (Bool-cases r.sanitizer_runs) [
    | inl s ↦ elim (Bool-cases r.hardener_runs) [
      | inl h ↦
          inl (IsEmpty-or_step r r.remaining r.sanitize_queue r.hardening_queue refl refl refl s h)
      | inr h ↦ inr (inr h)
    ]
    | inr s ↦ inr (inl s)
  ],
)

-- ===== src/Tests/RpcQuit.antt =====
-- A server that is told to quit once.
use cramc.Prelude.{
  ℕ, ◌+◌, ◌≤◌, ◌<◌, ◌≡◌, refl, ◌↔◌, ◌⊎◌, true, false, Option, none, List, arith, if◌then◌else◌,
  length, Bytes,
}
use cramc.Prelude.Outcome.{GoError}
use cramc.Rpc.Quit.{
  Quit, waiting, asker, server, accept, send, hand_over, stop_default, Reach, here, next, begun,
  sends, sent, receives,
}
use cramc.Rpc.Quit.Safety.{panicked_iff}
use cramc.Rpc.Quit.Stop.{stop_closes}
use cramc.Rpc.Quit.Unheard.{refusal_unheard}

panicked_iff_example :
    ((r : Quit) × Reach (begun 1 0 true) r × (r.panicked ≡ true))
    ↔ (2 ≤ 1 + 0 + (if true then 1 else 0))
panicked_iff_example = panicked_iff 1 0 true

-- One connection asks to quit, and `Start` receives its send.
abbrev asked_once : Quit
asked_once = record (begun 1 0 false) {
  main = waiting;
  closed = true;
  closing = 1;
  watching = 1;
  quits = 0;
}

asked_once-Reach : Reach (begun 1 0 false) asked_once
unfolding sends sent receives
asked_once-Reach =
    next
      (next (next (next here (accept refl refl refl)) (send asker (omega arith) (omega arith) refl))
        (hand_over asker server refl (omega arith) refl refl))
      (stop_default refl refl refl refl refl)

stop_closes_example : (asked_once.closed ≡ true) ⊎ (0 < asked_once.closing)
stop_closes_example = stop_closes 1 false asked_once-Reach refl

refusal_unheard_example :
    (q : Quit) × Reach (begun 0 1 true) q
    × (q.main ≡ waiting)
    × ((r : Quit) → Reach q r → r.closed ≡ false)
refusal_unheard_example = refusal_unheard 1 (omega arith)

abbrev pub ticks : List Bytes → ℕ
ticks sent = 5 + length sent

abbrev pub dials : ℕ → Option GoError
dials n = none

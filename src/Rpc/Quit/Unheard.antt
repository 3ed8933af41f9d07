-- ===== src/Rpc/Quit/Unheard.antt =====
-- `Stop` of gocode/sanitizer_ole/rpc_server.go while a connection is blocked in the send of a
-- refused document.
use cramc.Prelude.{ℕ, ◌+◌, ◌<◌, ◌≡◌, refl, true, false, arith}
use cramc.Rpc.Quit.{
  Quit, stopping, waiting, asker, refuser, server, stopper, acceptor, connection, watcher, sends,
  sent, receives, Step, accept, send, hand_over, send_closed, close_once, stop_default, leave,
  hang_up, unwatch, signal, Reach, here, next, begun,
}

-- `Stop` is past its select, the channel is open, and nobody asks to quit.
abbrev Deaf : Quit → Type 0
Deaf q = (q.main ≡ waiting) × (q.closed ≡ false) × (q.quits + q.asking + q.closing ≡ 0)

Step-Deaf : {q r : Quit} → Step q r → Deaf q → Deaf r
unfolding sends sent receives
Step-Deaf (accept a c e) k = ground arith
Step-Deaf (send asker n i e) k = ground arith
Step-Deaf (send refuser n i e) k = ground arith
Step-Deaf (hand_over asker p c b d e) k = ground arith
Step-Deaf (hand_over refuser server c b d e) k = ground arith
Step-Deaf (hand_over refuser stopper c b d e) k = ground arith
Step-Deaf (hand_over refuser acceptor c b d e) k = ground arith
Step-Deaf (hand_over refuser connection c b d e) k = ground arith
Step-Deaf (hand_over refuser watcher c b d e) k = ground arith
Step-Deaf (send_closed s c b e) k = ground arith
Step-Deaf (close_once n e) k = ground arith
Step-Deaf (stop_default m c a b e) k = ground arith
Step-Deaf (leave p c d e) k = ground arith
Step-Deaf (hang_up n e) k = ground arith
Step-Deaf (unwatch n e) k = ground arith
Step-Deaf (signal m n e) k = ground arith

Reach-Deaf : {q r : Quit} → Deaf q → Reach q r → Deaf r
Reach-Deaf k here = k
Reach-Deaf k (next reached s) = Step-Deaf s (Reach-Deaf k reached)

-- A refused document takes the place of the end of the server: where nobody asks to quit, at least
-- one document is refused and a signal comes, `Stop` can receive the send of the refusal itself;
-- then it is past its select, and in no order of the goroutines is the channel closed after that.
pub refusal_unheard :
    (refusals : ℕ)
    → 0 < refusals
    → (q : Quit) × Reach (begun 0 refusals true) q
      × (q.main ≡ waiting)
      × ((r : Quit) → Reach q r → r.closed ≡ false)
unfolding sends sent receives
refusal_unheard refusals n =
    let start : Quit = begun 0 refusals true in
    let opened : Quit = record start { idle = 1; watching = 1 } in
    let told : Quit = record (sends refuser opened) { main = stopping; signals = 0 } in
    (
      receives stopper (sent refuser told),
      next
          (next (next (next here (accept refl refl refl)) (send refuser n (omega arith) refl))
            (signal refl (omega arith) refl))
          (hand_over refuser stopper refl (omega arith) refl refl),
      refl,
      (λ r reached. (Reach-Deaf (refl, refl, refl) reached).1),
    )

-- ===== src/Rpc/Quit/Stop.antt =====
-- `Stop` of gocode/sanitizer_ole/rpc_server.go and the channel `quit`, where no document is refused.
use cramc.Prelude.{ℕ, ◌+◌, ◌<◌, ◌≡◌, refl, ◌≢◌, ◌⊎◌, inl, inr, Bool, true, arith}
use cramc.Rpc.Quit.{
  Quit, waiting, asker, refuser, server, stopper, acceptor, connection, watcher, sends, sent,
  receives, Step, accept, send, hand_over, send_closed, close_once, stop_default, leave, hang_up,
  unwatch, signal, Reach, here, next, begun,
}

abbrev Heard : Quit → Type 0
Heard q = (q.refusals + q.refusing ≡ 0) × ((q.main ≢ waiting) ⊎ (q.closed ≡ true) ⊎ (0 < q.closing))

Step-Heard : {q r : Quit} → Step q r → Heard q → Heard r
unfolding sends sent receives
Step-Heard (accept a c e) k = ground arith
Step-Heard (send asker n i e) k = ground arith
Step-Heard (send refuser n i e) k = ground arith
Step-Heard (hand_over asker server c b d e) k = ground arith
Step-Heard (hand_over asker stopper c b d e) k = ground arith
Step-Heard (hand_over asker acceptor c b d e) k = ground arith
Step-Heard (hand_over asker connection c b d e) k = ground arith
Step-Heard (hand_over asker watcher c b d e) k = ground arith
Step-Heard (hand_over refuser p c b d e) k = ground arith
Step-Heard (send_closed s c b e) k = ground arith
Step-Heard (close_once n e) k = ground arith
Step-Heard (stop_default m c a b e) k = ground arith
Step-Heard (leave p c d e) k = ground arith
Step-Heard (hang_up n e) k = ground arith
Step-Heard (unwatch n e) k = ground arith
Step-Heard (signal m n e) k = ground arith

Reach-Heard : {q r : Quit} → Heard q → Reach q r → Heard r
Reach-Heard k here = k
Reach-Heard k (next reached s) = Step-Heard s (Reach-Heard k reached)

-- Where no document is refused, `Stop` is past its select only if the channel is closed or a
-- connection is about to close it.
pub stop_closes :
    (quits : ℕ) (signalled : Bool) {r : Quit}
    → Reach (begun quits 0 signalled) r
    → r.main ≡ waiting
    → (r.closed ≡ true) ⊎ (0 < r.closing)
stop_closes quits signalled reached w = elim (Reach-Heard (refl, inl (ground arith)) reached).1 [
  | inl n ↦ absurd (n w)
  | inr h ↦ h
]

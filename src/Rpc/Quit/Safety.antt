-- ===== src/Rpc/Quit/Safety.antt =====
-- The process of gocode/sanitizer_ole/rpc_server.go and a send on the closed channel `quit`.
use cramc.Prelude.{
  ℕ, zero, suc, ◌+◌, ◌-◌, ◌≤◌, ◌<◌, ◌≡◌, refl, ap, ◌↔◌, ◌⊎◌, inl, inr, Bool, true, false, arith,
  if◌then◌else◌,
}
use cramc.Rpc.Quit.{
  Quit, serving, Sender, asker, refuser, Receiver, server, stopper, acceptor, connection, watcher,
  blocked_in_send, sends, sent, receives, Step, accept, send, hand_over, send_closed, close_once,
  stop_default, leave, hang_up, unwatch, signal, Reach, begun, to_come, next, waiting, here,
}

-- All that asks the server to end and has not been heard yet.
abbrev unheard : Quit → ℕ
unheard q = q.quits + q.refusals + q.signals + (q.asking + q.refusing)

-- At most one of them, on a server that has heard none; or none at all.
abbrev Calm : Quit → Type 0
Calm q =
    (q.panicked ≡ false)
    × (((unheard q ≡ 1) × (q.closed ≡ false) × (q.main ≡ serving) × (q.closing ≡ 0))
        ⊎ (unheard q ≡ 0))

receives_keeps :
    (p : Receiver) (q : Quit)
    → (unheard (receives p q) ≡ unheard q) × ((receives p q).panicked ≡ q.panicked)
unfolding receives
receives_keeps server q = (refl, refl)
receives_keeps stopper q = (refl, refl)
receives_keeps acceptor q = (refl, refl)
receives_keeps connection q = (refl, refl)
receives_keeps watcher q = (refl, refl)

unheard-sent :
    (s : Sender) (q : Quit)
    → 0 < blocked_in_send s q
    → (unheard (sent s q) + 1 ≡ unheard q) × ((sent s q).panicked ≡ q.panicked)
unfolding sent
unheard-sent asker q b = (omega arith, refl)
unheard-sent refuser q b = (omega arith, refl)

blocked-unheard : (s : Sender) (q : Quit) → blocked_in_send s q ≤ unheard q
blocked-unheard asker q = omega arith
blocked-unheard refuser q = omega arith

Step-Calm : {q r : Quit} → Step q r → Calm q → Calm r
unfolding sends
Step-Calm (accept a c e) k = ground arith
Step-Calm (send asker n i e) k = ground arith
Step-Calm (send refuser n i e) k = ground arith
Step-Calm {q = q} (hand_over s p c b d e) k =
    let (n, m) = receives_keeps p (sent s q) in
    let (l, o) = unheard-sent s q b in ground (arith, ap unheard e, ap (λ (x : Quit). x.panicked) e)
Step-Calm {q = q} (send_closed s c b e) k = ground (arith, blocked-unheard s q)
Step-Calm (close_once n e) k = ground arith
Step-Calm (stop_default m c a b e) k = ground arith
Step-Calm {q = q} (leave p c d e) k =
    let (n, m) = receives_keeps p q in ground (arith, ap unheard e, ap (λ (x : Quit). x.panicked) e)
Step-Calm (hang_up n e) k = ground arith
Step-Calm (unwatch n e) k = ground arith
Step-Calm (signal m n e) k = ground arith

Reach-Calm : {q r : Quit} → Calm q → Reach q r → Calm r
Reach-Calm k here = k
Reach-Calm k (next reached s) = Step-Calm s (Reach-Calm k reached)

-- Requests of the connections that are still to come.
abbrev requests : Quit → ℕ
requests q = q.quits + q.refusals

one_of : (m n : ℕ) → 0 < m + n → (0 < m) ⊎ (0 < n)
one_of zero n h = inr (omega arith)
one_of (suc m) n h = inl (omega arith)

at_most_one : (n : ℕ) → (n ≡ 1) ⊎ (n ≡ 0) ⊎ (2 ≤ n)
at_most_one zero = inr (inl refl)
at_most_one (suc zero) = inl refl
at_most_one (suc (suc n)) = inr (inr (omega arith))

someone : (q : Quit) → 0 < requests q → (s : Sender) × (0 < to_come s q)
someone q n = elim (one_of q.quits q.refusals n) [ inl l ↦ (asker, l) | inr l ↦ (refuser, l) ]

-- A run to a state in which the channel is closed while a connection is in its loop.
abbrev ClosedRun : Quit → ℕ → Type 0
ClosedRun q left = (r : Quit) × Reach q r × (r.closed ≡ true) × (0 < r.idle) × (requests r ≡ left)

abbrev PanicRun : Quit → Type 0
PanicRun q = (r : Quit) × Reach q r × (r.panicked ≡ true)

panics_with :
    {q r : Quit} (s : Sender)
    → Reach q r
    → r.closed ≡ true
    → 0 < r.idle
    → 0 < to_come s r
    → PanicRun q
unfolding sends
panics_with {r = r} asker reached c i n = (
  record (sends asker r) { panicked = true },
  next (next reached (send asker n i refl)) (send_closed asker c (omega arith) refl),
  refl,
)
panics_with {r = r} refuser reached c i n = (
  record (sends refuser r) { panicked = true },
  next (next reached (send refuser n i refl)) (send_closed refuser c (omega arith) refl),
  refl,
)

panics_behind : {q : Quit} {left : ℕ} → ClosedRun q left → 0 < left → PanicRun q
panics_behind (r, reached, c, i, e) n =
    let (s, m) = someone r (omega arith) in panics_with s reached c i m

module _ (quits refusals : ℕ) (signalled : Bool) where
  abbrev opened : Quit
  opened = record (begun quits refusals signalled) { idle = 2; watching = 2 }

  Reach-opened : Reach (begun quits refusals signalled) opened
  Reach-opened = next (next here (accept refl refl refl)) (accept refl refl refl)

  asked : 0 < quits → ClosedRun (begun quits refusals signalled) (quits - 1 + refusals)
  unfolding sends sent receives
  asked n = (
    record (receives server (sent asker (sends asker opened))) { main = waiting; closed = true },
    next
        (next (next Reach-opened (send asker n (omega arith) refl))
          (hand_over asker server refl (omega arith) refl refl))
        (stop_default refl refl refl refl refl),
    refl,
    omega arith,
    refl,
  )

  refused : 0 < refusals → ClosedRun (begun quits refusals signalled) (quits + (refusals - 1))
  unfolding sends sent receives
  refused n = (
    record (receives server (sent refuser (sends refuser opened))) {
      main = waiting;
      closed = true;
    },
    next
        (next (next Reach-opened (send refuser n (omega arith) refl))
          (hand_over refuser server refl (omega arith) refl refl))
        (stop_default refl refl refl refl refl),
    refl,
    omega arith,
    refl,
  )

signal_taken : (quits refusals : ℕ) → ClosedRun (begun quits refusals true) (quits + refusals)
signal_taken quits refusals = (
  record (opened quits refusals true) { main = waiting; closed = true; signals = 0 },
  next (next (Reach-opened quits refusals true) (signal refl (omega arith) refl))
      (stop_default refl refl refl refl refl),
  refl,
  omega arith,
  refl,
)

told_twice :
    (quits refusals : ℕ) (signalled : Bool) {r : Quit}
    → Reach (begun quits refusals signalled) r
    → r.panicked ≡ true
    → 2 ≤ quits + refusals + (if signalled then 1 else 0)
told_twice quits refusals signalled {r} reached p =
    let calm_end = λ (k : Calm (begun quits refusals signalled)). Reach-Calm k reached in
    elim (at_most_one (quits + refusals + (if signalled then 1 else 0))) [
      | inl one ↦ ground (arith, p, (calm_end (refl, inl (omega (arith, one), refl, refl, refl))).0)
      | inr (inl zero_left) ↦ ground (arith, p, (calm_end (refl, inr (omega (arith, zero_left)))).0)
      | inr (inr many) ↦ many
    ]

pub panics_twice :
    (quits refusals : ℕ) (signalled : Bool)
    → 2 ≤ quits + refusals + (if signalled then 1 else 0)
    → PanicRun (begun quits refusals signalled)
panics_twice quits refusals true n = panics_behind (signal_taken quits refusals) (omega arith)
panics_twice (suc quits) refusals false n =
    panics_behind (asked (suc quits) refusals false (omega arith)) (omega arith)
panics_twice zero (suc refusals) false n =
    panics_behind (refused zero (suc refusals) false (omega arith)) (omega arith)
panics_twice zero zero false n = absurd (omega arith)

-- The process can end in a send on the closed channel exactly if it is told twice to end, by
-- requests to quit, refused documents or a signal: no order of its goroutines ends in a panic if
-- it is told once, and some order does if it is told twice.
pub panicked_iff :
    (quits refusals : ℕ) (signalled : Bool)
    → ((r : Quit) × Reach (begun quits refusals signalled) r × (r.panicked ≡ true))
      ↔ (2 ≤ quits + refusals + (if signalled then 1 else 0))
panicked_iff quits refusals signalled = (
  (λ (r, reached, p). told_twice quits refusals signalled reached p),
  panics_twice quits refusals signalled,
)

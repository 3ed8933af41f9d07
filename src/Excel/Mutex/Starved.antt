-- ===== src/Excel/Mutex/Starved.antt =====
-- The mutex behind a timeout.
use cramc.Prelude.{ℕ, ◌<◌, ◌≡◌, refl, ap, ◌∙◌, ◌≢◌, Bool, true, false, arith}
use cramc.Prelude.Outcome.{Outcome, ok, err, panic, blocked}
use cramc.Excel.Timeout.{
  Worker, stop_excel, restart_excel, unlock, quit_worker, init_worker, get_workbooks,
}
use cramc.Excel.Mutex.{
  arriving, waits, works, left, Pool, put, moved, holding, set_restarting, restarted, Step, arrive,
  acquire, report, hear, give_back, give_back_fatal, TimedOut, stop, stop_fatal, restart,
  restart_fatal, Reach, here, next, late,
}

-- A document in the `Lock` of a mutex that the worker has given up and that is held.
record IsLost (i n : ℕ) (p : Pool) : Type 0 where
  old : n < p.current
  kept : p.held n ≡ true
  stays : (p.docs i).place ≡ waits n

Step-IsLost : {p q : Pool} (i n : ℕ) → Step p q → IsLost i n p → IsLost i n q
Step-IsLost i n (arrive j a e) k = rw e (ground arith)
Step-IsLost i n (acquire j m a h e) k = rw e (ground arith)
Step-IsLost i n (report j a e) k = rw e (ground arith)
Step-IsLost i n (hear j a h e) k = rw e (ground arith)
Step-IsLost i n (give_back j w a t u e) k = rw e (ground arith)
Step-IsLost i n (give_back_fatal j a t u e) k = rw e (ground arith)

restarted-IsLost :
    (i n j : ℕ) (created : Outcome (Unit {0})) (w : Worker) (p : Pool)
    → IsLost i n p
    → IsLost i n (restarted created w (set_restarting j false p))
restarted-IsLost i n j (ok u) w p k = ground arith
restarted-IsLost i n j (err e) w p k = ground arith
restarted-IsLost i n j panic w p k = ground arith
restarted-IsLost i n j blocked w p k = ground arith

TimedOut-IsLost : {p q : Pool} (i n : ℕ) → TimedOut p q → IsLost i n p → IsLost i n q
TimedOut-IsLost i n (stop j w a t e) k = rw e (ground arith)
TimedOut-IsLost i n (stop_fatal j a t e) k = rw e (ground arith)
TimedOut-IsLost {p} i n (restart j created gives w a t e) k =
    rw e (restarted-IsLost i n j created w p k)
TimedOut-IsLost i n (restart_fatal j created gives a t e) k = rw e (ground arith)

Reach-IsLost : {p q : Pool} (i n : ℕ) → IsLost i n p → Reach p q → IsLost i n q
Reach-IsLost i n k here = k
Reach-IsLost i n k (next reached alive s) = Step-IsLost i n s (Reach-IsLost i n k reached)
Reach-IsLost i n k (late reached alive s) = TimedOut-IsLost i n s (Reach-IsLost i n k reached)

begins-IsLost :
    (i j : ℕ) (created : Outcome (Unit {0})) (p : Pool) (w : Worker)
    → p.worker.mu_held ≡ true
    → (p.docs i).place ≡ waits p.current
    → (restarted created w (set_restarting j false p)).current ≢ p.current
    → IsLost i p.current (restarted created w (set_restarting j false p))
begins-IsLost i j (ok u) p w held a new = ground arith
begins-IsLost i j (err e) p w held a new = absurd (new refl)
begins-IsLost i j panic p w held a new = absurd (new refl)
begins-IsLost i j blocked p w held a new = absurd (new refl)

renews-IsLost :
    {p q : Pool} (i : ℕ)
    → p.worker.mu_held ≡ true
    → (p.docs i).place ≡ waits p.current
    → TimedOut p q
    → q.current ≢ p.current
    → IsLost i p.current q
renews-IsLost i held a (stop j w v t e) new = absurd (new (ap (λ (p : Pool). p.current) e))
renews-IsLost i held a (stop_fatal j v t e) new = absurd (new (ap (λ (p : Pool). p.current) e))
renews-IsLost {p} i held a (restart j created gives w v t e) new =
    rw e (begins-IsLost i j created p w held a (λ s. new (ap (λ (p : Pool). p.current) e ∙ s)))
renews-IsLost i held a (restart_fatal j created gives v t e) new =
    absurd (new (ap (λ (p : Pool). p.current) e))

-- The timeout of any document makes a new mutex while the one before is still held, as its document
-- has not come to its `Unlock` since Excel was ended: a document that waits for the mutex before
-- then waits for ever, in whatever order the goroutines run and whatever further timeouts there
-- are.
pub waits_for_ever :
    {p q r : Pool} (i : ℕ)
    → p.worker.mu_held ≡ true
    → (p.docs i).place ≡ waits p.current
    → TimedOut p q
    → q.current ≢ p.current
    → Reach q r
    → (r.docs i).place ≡ waits p.current
waits_for_ever {p} i held a t new reached =
    (Reach-IsLost i p.current (renews-IsLost i held a t new) reached).stays

-- Two documents at work under one mutex: the first `Unlock` frees it, the second ends the process.
unlocks_twice :
    (p : Pool) (i j : ℕ)
    → p.fatal ≡ false
    → p.worker.mu_held ≡ true
    → i ≢ j
    → (p.docs i).place ≡ works
    → (p.docs j).place ≡ works
    → (r : Pool) × Reach p r × (r.fatal ≡ true)
unfolding unlock
unlocks_twice p i j alive held n a b =
    let p1 = record p { docs = put i (record (p.docs i) { reported = true }) p.docs } in
    let p2 = record (moved i left p1) { worker = record (p.worker) { mu_held = false } } in
    let p3 = record p2 { docs = put j (record (p2.docs j) { reported = true }) p2.docs } in
    (
      record p3 { fatal = true },
      next
          (next
            (next (next here alive (report i a refl)) alive
              (give_back i _ (ground arith) (ground arith) (rw held) refl))
            alive (report j (ground arith) refl))
          alive (give_back_fatal j (ground arith) (ground arith) refl refl),
      refl,
    )

-- A document that comes where the mutex is free and another one works.
comes_beside :
    (p : Pool) (i j : ℕ) {p0 : Pool}
    → Reach p0 p
    → p.fatal ≡ false
    → p.worker.mu_held ≡ false
    → (p.docs i).place ≡ works
    → (p.docs j).place ≡ arriving
    → (q : Pool) × Reach p0 q
      × ((q.docs i).place ≡ works)
      × ((q.docs j).place ≡ works)
      × ((r : Pool) × Reach q r × (r.fatal ≡ true))
comes_beside p i j reached alive free a b =
    let p2 = moved j (waits p.current) p in
    let q = holding p.current (moved j works p2) in
    let i_works : (q.docs i).place ≡ works = ground arith in
    let j_works : (q.docs j).place ≡ works = ground arith in
    let alone : i ≢ j = λ e. ground (arith, e) in
    (
      q,
      next (next reached alive (arrive j b refl)) alive
          (acquire j p.current (ground arith) (ground arith) refl),
      i_works,
      j_works,
      unlocks_twice q i j (ground arith) (ground arith) alone i_works j_works,
    )

place_kept :
    (p : Pool) (k i : ℕ) (b : Bool) → ((set_restarting k b p).docs i).place ≡ (p.docs i).place
place_kept p k i b = ground arith

restarts_set : (p : Pool) (k : ℕ) → ((set_restarting k true p).docs k).restarting ≡ true
restarts_set p k = ground arith

-- A timeout of any document while one works: Excel can be ended and started again before that one
-- gets to its `Unlock`; a second document that comes only then gets to work beside it, and the two
-- `Unlock`s can end the process.
pub works_twice :
    (p : Pool) (i j k : ℕ)
    → p.fatal ≡ false
    → p.worker.has_excel ≡ true
    → (p.docs i).place ≡ works
    → (p.docs j).place ≡ arriving
    → (p.docs k).watched ≡ true
    → (q : Pool) × Reach p q
      × ((q.docs i).place ≡ works)
      × ((q.docs j).place ≡ works)
      × ((r : Pool) × Reach q r × (r.fatal ≡ true))
unfolding stop_excel quit_worker restart_excel init_worker get_workbooks
works_twice p i j k alive excel a b c =
    let off : Worker = record (p.worker) {
      has_excel = false;
      workbooks_handle = false;
      e_worker_set = false;
    } in
    let w : Worker = record {
      has_excel = true;
      workbooks_handle = true;
      mu_held = false;
      e_worker_set = true;
    } in
    let p0 : Pool = record (set_restarting k true p) { worker = off } in
    let p1 = restarted (ok tt) w (set_restarting k false p0) in
    let restarts : ((p0.docs k).restarting) ≡ true = restarts_set p k in
    comes_beside p1 i j
      (late (late here alive (stop k off c (rw excel) refl)) alive
        (restart k (ok tt) true w restarts refl refl))
      alive refl (place_kept p0 k i false ∙ place_kept p k i true ∙ a)
      (place_kept p0 k j false ∙ place_kept p k j true ∙ b)

-- ===== src/Tests/ExcelMutex.antt =====
-- Two documents that want the mutex of the worker.
use cramc.Prelude.{ℕ, ◌≡◌, refl, true, false, arith}
use cramc.Prelude.Outcome.{ok}
use cramc.Excel.Timeout.{Worker, restart_excel}
use cramc.Excel.Mutex.{
  waits, works, Pool, moved, holding, set_restarting, restarted, arrive, acquire, TimedOut, restart,
  Reach, here, next, Calm, begin, also, begun,
}
use cramc.Excel.Mutex.Alone.{works_alone}
use cramc.Excel.Mutex.Starved.{waits_for_ever, works_twice}

abbrev one_waits : Pool
one_waits = moved 0 (waits 0) begun

abbrev one_works : Pool
one_works = holding 0 (moved 0 works one_waits)

-- The first document works, the second waits.
abbrev contended : Pool
contended = moved 1 (waits 0) one_works

contended-Calm : Calm begun contended
contended-Calm =
    also (also (also begin refl (arrive 0 refl refl)) refl (acquire 0 0 refl refl refl)) refl
      (arrive 1 refl refl)

works_alone_example :
    ((i j : ℕ) → (contended.docs i).place ≡ works → (contended.docs j).place ≡ works → i ≡ j)
    × (contended.fatal ≡ false)
works_alone_example = works_alone contended-Calm

abbrev again : Worker
again = record { has_excel = true; workbooks_handle = true; mu_held = false; e_worker_set = true }

-- The timeout of the second one, which only waits: Excel is ended, and started again.
abbrev stopped : Pool
stopped = record (set_restarting 1 true contended) {
  worker = record {
    has_excel = false;
    workbooks_handle = false;
    mu_held = true;
    e_worker_set = false;
  };
}

abbrev late_one : Pool
late_one = restarted (ok tt) again (set_restarting 1 false stopped)

stopped-TimedOut : TimedOut stopped late_one
unfolding restart_excel
stopped-TimedOut = restart 1 (ok tt) true again refl refl refl

abbrev third_works : Pool
third_works = holding 1 (moved 2 works (moved 2 (waits 1) late_one))

late_one-Reach : Reach late_one third_works
late_one-Reach = next (next here refl (arrive 2 refl refl)) refl (acquire 2 1 refl refl refl)

waits_for_ever_example : (third_works.docs 1).place ≡ waits 0
waits_for_ever_example =
    waits_for_ever 1 refl refl stopped-TimedOut (λ e. absurd (omega (arith, e))) late_one-Reach

works_twice_example :
    (q : Pool) × Reach contended q
    × ((q.docs 0).place ≡ works)
    × ((q.docs 2).place ≡ works)
    × ((r : Pool) × Reach q r × (r.fatal ≡ true))
works_twice_example = works_twice contended 0 2 1 refl refl refl refl refl

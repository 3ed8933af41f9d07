-- ===== src/Excel/Mutex/Alone.antt =====
-- The mutex without timeouts.
use cramc.Prelude.{ℕ, ◌≡◌, refl, true, false, arith}
use cramc.Excel.Timeout.{Worker, unlock}
use cramc.Excel.Mutex.{
  waits, works, left, Doc, Pool, put, moved, holding, is_held, Step, arrive, acquire, report, hear,
  give_back, give_back_fatal, Calm, begin, also, begun,
}

-- Who waits, waits for the current mutex; who works holds it, and alone.
record IsAlone (p : Pool) : Type 0 where
  up_to_date : (i n : ℕ) → (p.docs i).place ≡ waits n → n ≡ p.current
  holds : (i : ℕ) → (p.docs i).place ≡ works → p.worker.mu_held ≡ true
  alone : (i j : ℕ) → (p.docs i).place ≡ works → (p.docs j).place ≡ works → i ≡ j
  alive : p.fatal ≡ false

-- A document that changes, but neither begins to work nor to wait for an old mutex.
put-IsAlone :
    (p : Pool) (i : ℕ) (d : Doc)
    → IsAlone p
    → (d.place ≡ works → (p.docs i).place ≡ works)
    → ((n : ℕ) → d.place ≡ waits n → n ≡ p.current)
    → IsAlone (record p { docs = put i d p.docs })
put-IsAlone p i d k w o = record {
  up_to_date = λ j n v. ground (arith, k.up_to_date j n, o n);
  holds = λ j v. ground (arith, k.holds j, w);
  alone = λ j l v u. ground (arith, k.alone j l, w);
  alive = k.alive;
}

-- The current mutex is free, so nobody works.
acquired :
    (p : Pool) (i n : ℕ)
    → IsAlone p
    → n ≡ p.current
    → is_held p n ≡ false
    → IsAlone (holding n (moved i works p))
acquired p i n k c h = record {
  up_to_date = λ j m v. ground (arith, k.up_to_date j m);
  holds = λ j v. ground (arith, k.holds j);
  alone = λ j l v u. ground (arith, k.holds j, k.holds l);
  alive = ground (arith, k.alive);
}

released :
    (p : Pool) (i : ℕ) (w : Worker)
    → IsAlone p
    → (p.docs i).place ≡ works
    → IsAlone (record (moved i left p) { worker = w })
released p i w k a = record {
  up_to_date = λ j m v. ground (arith, k.up_to_date j m);
  holds = λ j v. ground (arith, k.alone i j);
  alone = λ j l v u. ground (arith, k.alone j l);
  alive = k.alive;
}

Step-IsAlone : {p q : Pool} → Step p q → IsAlone p → IsAlone q
unfolding unlock
Step-IsAlone {p} (arrive i a e) k = rw e (put-IsAlone p i _ k (λ v. cc) (λ n v. cc))
Step-IsAlone {p} (acquire i n a h e) k = rw e (acquired p i n k (k.up_to_date i n a) h)
Step-IsAlone {p} (report i a e) k = rw e (put-IsAlone p i _ k (λ v. v) (k.up_to_date i))
Step-IsAlone {p} (hear i a h e) k = rw e (put-IsAlone p i _ k (λ v. v) (k.up_to_date i))
Step-IsAlone {p} (give_back i w a t u e) k = rw e (released p i w k a)
Step-IsAlone {p} (give_back_fatal i a t u e) k = absurd (ground (arith, k.holds i))

Calm-IsAlone : {p q : Pool} → IsAlone p → Calm p q → IsAlone q
Calm-IsAlone k begin = k
Calm-IsAlone k (also reached alive s) = Step-IsAlone s (Calm-IsAlone k reached)

-- While no timeout fires, at most one document is between its `Lock` and its `Unlock`, in whatever
-- order the goroutines run, and no `Unlock` ends the process.
pub works_alone :
    {p : Pool}
    → Calm begun p
    → ((i j : ℕ) → (p.docs i).place ≡ works → (p.docs j).place ≡ works → i ≡ j) × (p.fatal ≡ false)
works_alone reached =
    let k =
      Calm-IsAlone
        (record {
          up_to_date = λ i n v. cc;
          holds = λ i v. cc;
          alone = λ i j v u. cc;
          alive = refl;
        })
        reached in
    (k.alone, k.alive)

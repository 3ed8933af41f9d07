-- ===== src/Helper/Race/Lost.antt =====
-- Two helpers that test for the lock file before one of them has made it.
use cramc.Prelude.{text_eq, ℕ, ◌≡◌, refl, ◌≢◌, true, false, none, some, [], arith}
use cramc.Disk.{Disk, put, put_same}
use cramc.Release.{check_file_logical_exists}
use cramc.Helper.{lock_file, text_eq}
use cramc.Helper.Race.{
  Machines, Stage, before_test, may_lock, has_locked, in_start, gone, lock_exists, to_stage,
  leaving, Step, test_free, test_taken, create, listen, listen_fails, start_returns, Reach, here,
  next,
}

-- Who is in `Start` has the pipe, and alone.
record OwnsPipe (m : Machines) : Type 0 where
  has_pipe : (i : ℕ) → m.stage i ≡ in_start → m.pipe ≡ true
  alone : (i j : ℕ) → m.stage i ≡ in_start → m.stage j ≡ in_start → i ≡ j

-- A helper that changes its stage, but not to `Start`.
OwnsPipe-stage :
    (m : Machines) (i : ℕ) (s : Stage) (disk : Disk)
    → s ≢ in_start
    → OwnsPipe m
    → OwnsPipe (record (to_stage i s m) { disk = disk })
OwnsPipe-stage m i s disk n k = record {
  has_pipe = λ j t. ground (arith, k.has_pipe j, n);
  alone = λ j l t u. ground (arith, k.alone j l, n);
}

Step-OwnsPipe : {m n : Machines} → Step m n → OwnsPipe m → OwnsPipe n
Step-OwnsPipe {m} (test_free i a l e) k = rw e (OwnsPipe-stage m i may_lock m.disk (λ q. cc) k)
Step-OwnsPipe {m} (test_taken i a l e) k = rw e (OwnsPipe-stage m i gone m.disk (λ q. cc) k)
Step-OwnsPipe {m} (create i a e) k =
    rw e (OwnsPipe-stage m i has_locked (put lock_file (some []) m.disk) (λ q. cc) k)
Step-OwnsPipe {m} (listen_fails i a p e) k =
    rw e (OwnsPipe-stage m i gone (put lock_file none m.disk) (λ q. cc) k)
Step-OwnsPipe (listen i a p e) k = rw e (record {
  has_pipe = λ j s. ground arith;
  alone = λ j l s t. ground (arith, k.has_pipe j, k.has_pipe l);
})
Step-OwnsPipe (start_returns i a e) k = rw e (record {
  has_pipe = λ j s. ground (arith, k.alone i j);
  alone = λ j l s t. ground (arith, k.alone j l);
})

Reach-OwnsPipe : {m n : Machines} → OwnsPipe m → Reach m n → OwnsPipe n
Reach-OwnsPipe k here = k
Reach-OwnsPipe k (next reached s) = Step-OwnsPipe s (Reach-OwnsPipe k reached)

-- No helper has been started.
abbrev pub fresh : Disk → Machines
fresh disk = record { disk = disk; pipe = false; stage = λ i. before_test }

-- In whatever order the helpers run, no two of them are in `Start`: the pipe sees to it.
one_in_start :
    (disk : Disk) {m : Machines} (i j : ℕ)
    → Reach (fresh disk) m
    → m.stage i ≡ in_start
    → m.stage j ≡ in_start
    → i ≡ j
one_in_start disk i j reached =
    (Reach-OwnsPipe (record { has_pipe = λ i s. cc; alone = λ i j s t. cc }) reached).alone i j

no_lock : (disk : Disk) → disk lock_file ≡ none → lock_exists disk ≡ false
unfolding check_file_logical_exists text_eq
no_lock disk e = rw e

-- The lock does not see to it: two helpers that come while there is no lock can both find none, and
-- the one that then cannot listen removes the lock that the other runs under, so that a third one
-- finds no lock either.
pub lock_lost :
    (m : Machines) (i j : ℕ)
    → i ≢ j
    → m.stage i ≡ before_test
    → m.stage j ≡ before_test
    → lock_exists m.disk ≡ false
    → m.pipe ≡ false
    → (n : Machines) × Reach m n
      × (n.stage i ≡ in_start)
      × (n.pipe ≡ true)
      × (n.disk lock_file ≡ none)
      × (lock_exists n.disk ≡ false)
lock_lost m i j ne a b l p =
    let m1 = to_stage j may_lock (to_stage i may_lock m) in
    let m2 = record (to_stage i has_locked m1) { disk = put lock_file (some []) m1.disk } in
    let m3 = record (to_stage i in_start m2) { pipe = true } in
    let m4 = record (to_stage j has_locked m3) { disk = put lock_file (some []) m3.disk } in
    let gone_lock : put lock_file none m4.disk lock_file ≡ none = put_same m4.disk lock_file none in
    (
      leaving j m4,
      next
          (next
            (next
              (next (next (next here (test_free i a l refl)) (test_free j (ground arith) l refl))
                (create i (ground arith) refl))
              (listen i (ground arith) p refl))
            (create j (ground arith) refl))
          (listen_fails j (ground arith) refl refl),
      ground arith,
      refl,
      gone_lock,
      no_lock (leaving j m4).disk gone_lock,
    )

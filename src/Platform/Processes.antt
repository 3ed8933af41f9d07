-- ===== src/Platform/Processes.antt =====
-- gocode/platform/windoge_utils/procs.go: `KillAllOfficeProcesses`. A process is its name, if the
-- name can be read; the processes that were told to terminate are listed.
use cramc.Prelude.{
  arith, ◌+◌, Bool, true, false, not, ◌&&◌, Option, none, some, List, [], ◌∷◌, leb, if◌then◌else◌,
  Bytes, codes, text_eq, All, ◌≡◌, refl, Bool-cases, inl, inr, ◌++◌,
}
use cramc.Prelude.Outcome.{Outcome, ok, err, panic, blocked, unsupported_platform}

-- `strings.ToLower` on ASCII.
unfoldable pub to_lower : Bytes → Bytes
to_lower [] = []
to_lower (c ∷ s) = (if leb b'A' c && leb c b'Z' then c + 32 else c) ∷ to_lower s

abbrev pub covered_process : Bytes
covered_process = codes "excel.exe"

unfoldable pub terminate_each : List (Option Bytes) → List Bytes
unfolding to_lower
terminate_each [] = []
terminate_each (none ∷ procs) = terminate_each procs
terminate_each (some name ∷ procs) =
    if text_eq covered_process (to_lower name)
    then name ∷ terminate_each procs
    else terminate_each procs

abbrev is_nil : List Bytes → Bool
is_nil [] = true
is_nil (x ∷ xs) = false

abbrev pub proc_killed : Outcome (List (Option Bytes)) → Outcome Bool × List Bytes
proc_killed (ok procs) = (ok (not (is_nil (terminate_each procs))), terminate_each procs)
proc_killed (err e) = (err e, [])
proc_killed panic = (panic, [])
proc_killed blocked = (blocked, [])

unfoldable pub kill_all_office_processes :
    Bool → Bool → Outcome (List (Option Bytes)) → Outcome Bool × List Bytes
unfolding terminate_each
kill_all_office_processes is_running_on_win dry_run_only processes =
    if not is_running_on_win
    then (err unsupported_platform, [])
    else if dry_run_only
    then (ok true, [])
    else proc_killed processes

terminate_each_covered :
    (procs : List (Option Bytes))
    → All (λ n. text_eq covered_process (to_lower n) ≡ true) (terminate_each procs)
unfolding terminate_each
terminate_each_covered [] = tt
terminate_each_covered (none ∷ procs) = terminate_each_covered procs
terminate_each_covered (some n ∷ procs) = ground (arith, terminate_each_covered procs)

-- The Excel processes of a list of which one is given.
terminate_each_split :
    (before after : List (Option Bytes)) (n : Bytes)
    → text_eq covered_process (to_lower n) ≡ true
    → terminate_each (before ++ some n ∷ after) ≡ terminate_each before ++ n ∷ terminate_each after
unfolding terminate_each
terminate_each_split [] after n h = ground arith
terminate_each_split (none ∷ before) after n h = terminate_each_split before after n h
terminate_each_split (some m ∷ before) after n h =
    elim (Bool-cases (text_eq covered_process (to_lower m))) [
      | inl e ↦ simp (e, terminate_each_split before after n h)
      | inr e ↦ simp (e, terminate_each_split before after n h)
    ]

not-is_nil : (xs ys : List Bytes) (n : Bytes) → not (is_nil (xs ++ n ∷ ys)) ≡ true
not-is_nil [] ys n = refl
not-is_nil (x ∷ xs) ys n = refl

-- Where Excel runs as one of the processes, however its name is cased, every process of Excel
-- before and after it is told to terminate too, in the order they are listed, none of another
-- program is, and the result says that there was one. A dry run tells none, and another system
-- refuses.
kill_all_office_processes_covered :
    (before after : List (Option Bytes)) (n : Bytes)
    → text_eq covered_process (to_lower n) ≡ true
    → let procs = before ++ some n ∷ after in
      let told = terminate_each before ++ n ∷ terminate_each after in
      (kill_all_office_processes true false (ok procs) ≡ (ok true, told))
      × (All (λ m. text_eq covered_process (to_lower m) ≡ true) told)
      × (kill_all_office_processes true true (ok procs) ≡ (ok true, []))
      × (kill_all_office_processes false false (ok procs) ≡ (err unsupported_platform, []))
unfolding kill_all_office_processes
kill_all_office_processes_covered before after n h =
    let e = terminate_each_split before after n h in
    (
      simp (e, not-is_nil (terminate_each before) (terminate_each after) n),
      rw e at (terminate_each_covered (before ++ some n ∷ after)),
      refl,
      refl,
    )

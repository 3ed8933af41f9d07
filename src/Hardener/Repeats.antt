-- ===== src/Hardener/Repeats.antt =====
-- Theorems on `DispatchHardenAction` (gocode/hardener/actionScheduler.go) over a queue.
use cramc.Prelude.{
  ◌≡◌, refl, Bool, true, false, not, ◌||◌, none, List, [], ◌∷◌, arith, any, All, Bytes, text_eq,
  text_eq_refl,
}
use cramc.Common.{HardeningAction}
use cramc.Hardener.Template.{TemplateEnv}
use cramc.Hardener.{Os, Hardener, dispatch_harden_action, hardening_loop}

abbrev pub is_hardened : {os : Os} → Hardener os → Bytes → Bool
is_hardened h name = any (λ n. text_eq n name) h.hardened_detection_types

module _ (os : Os) (env : TemplateEnv) where
  dispatch_dry_run :
      (a : HardeningAction) (h : Hardener os)
      → h.dry_run_only ≡ true
      → dispatch_harden_action os env a h ≡ (none, h)
  unfolding dispatch_harden_action
  dispatch_dry_run a h d = simp d

  -- No action of this name is to be taken any more.
  abbrev settled : Hardener os → Bytes → Bool
  settled h n = h.dry_run_only || (not h.is_running_on_win || is_hardened h n)

  dispatch-settles :
      (a : HardeningAction) (h : Hardener os)
      → settled (dispatch_harden_action os env a h).1 a.name ≡ true
  unfolding dispatch_harden_action
  dispatch-settles a h = ground (arith, text_eq_refl a.name)

  dispatch_keeps_settled :
      (a : HardeningAction) (h : Hardener os) (n : Bytes)
      → settled h n ≡ true
      → settled (dispatch_harden_action os env a h).1 n ≡ true
  unfolding dispatch_harden_action
  dispatch_keeps_settled a h n e = ground arith

  dispatch_settled :
      (a : HardeningAction) (h : Hardener os)
      → a.allow_repeated_harden ≡ false
      → settled h a.name ≡ true
      → (dispatch_harden_action os env a h).1 ≡ h
  unfolding dispatch_harden_action
  dispatch_settled a h r e = ground arith

  loop_keeps_settled :
      (q : List HardeningAction) (h : Hardener os) (n : Bytes)
      → settled h n ≡ true
      → settled (hardening_loop os env q h) n ≡ true
  unfolding hardening_loop
  loop_keeps_settled [] h n e = e
  loop_keeps_settled (a ∷ q) h n e =
      loop_keeps_settled q (dispatch_harden_action os env a h).1 n (dispatch_keeps_settled a h n e)

  AllSettled : Hardener os → List HardeningAction → Type 0
  AllSettled h = All (λ a. settled h a.name ≡ true)

  All-map :
      {P Q : HardeningAction → Type 0} (q : List HardeningAction)
      → ((a : HardeningAction) → P a → Q a)
      → All P q
      → All Q q
  All-map [] f h = tt
  All-map (a ∷ q) f h = (f a h.0, All-map q f h.1)

  loop-settles :
      (q : List HardeningAction) (h : Hardener os) → AllSettled (hardening_loop os env q h) q
  unfolding hardening_loop AllSettled
  loop-settles [] h = tt
  loop-settles (a ∷ q) h =
      let h' = (dispatch_harden_action os env a h).1 in
      (loop_keeps_settled q h' a.name (dispatch-settles a h), loop-settles q h')

  loop_settled :
      (q : List HardeningAction) (h : Hardener os)
      → All (λ a. a.allow_repeated_harden ≡ false) q
      → AllSettled h q
      → hardening_loop os env q h ≡ h
  unfolding hardening_loop AllSettled
  loop_settled [] h r s = refl
  loop_settled (a ∷ q) h r s =
      rw (dispatch_settled a h r.0 s.0, hardening_loop) (loop_settled q h r.1 s.1)

-- A dry run takes no hardening action and records none, whatever the queue holds.
hardening_loop_dry_run :
    (os : Os) (env : TemplateEnv) (q : List HardeningAction) (h : Hardener os)
    → h.dry_run_only ≡ true
    → hardening_loop os env q h ≡ h
unfolding hardening_loop
hardening_loop_dry_run os env [] h d = refl
hardening_loop_dry_run os env (a ∷ q) h d =
    rw (dispatch_dry_run os env a h d, hardening_loop) (hardening_loop_dry_run os env q h d)

-- Actions that do not allow a repetition are taken once: when a queue of them comes again, after
-- whatever else was hardened in between, nothing is done and nothing is recorded.
pub hardening_loop_again :
    (os : Os) (env : TemplateEnv) (q more : List HardeningAction) (h : Hardener os)
    → All (λ a. a.allow_repeated_harden ≡ false) q
    → let later = hardening_loop os env more (hardening_loop os env q h) in
      hardening_loop os env q later ≡ later
unfolding AllSettled
hardening_loop_again os env q more h r =
    let first = hardening_loop os env q h in
    loop_settled os env q (hardening_loop os env more first) r (
      All-map os env q (λ a e. loop_keeps_settled os env more first a.name e)
        (loop-settles os env q h))

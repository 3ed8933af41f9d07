-- ===== src/Hardener/Template.antt =====
-- gocode/hardener/tinyActions.go: `applyTextTemplate`. Who runs the program, that user's home and
-- the profile directory of the logged-in user are what the operating system answers.
use cramc.Prelude.{
  ℕ, zero, suc, ◌≡◌, refl, Bool, true, false, [], ◌∷◌, ◌++◌, arith, ◌==◌, if◌then◌else◌, All, Bytes,
  codes,
}
use cramc.Prelude.Outcome.{Outcome, ok, ◌>>=◌}
use cramc.Paths.{has_prefix}

abbrev pub home_var : Bytes
home_var = codes "${HOME}"

-- `strings.ReplaceAll(s, "${HOME}", home)`: `skipped` bytes belong to an occurrence.
unfoldable pub replace_home : Bytes → ℕ → Bytes → Bytes
unfolding has_prefix
replace_home home skipped [] = []
replace_home home (suc skipped) (c ∷ s) = replace_home home skipped s
replace_home home zero (c ∷ s) =
    let occurrence = home ++ replace_home home 6 s in
    let other = c ∷ replace_home home 0 s in
    if has_prefix (c ∷ s) home_var then occurrence else other

pub record TemplateEnv : Type 0 where
  pub run_as_system : Outcome Bool
  pub home_dir : Outcome Bytes
  pub logged_in_profile : Outcome Bytes

unfoldable pub apply_text_template : TemplateEnv → Bytes → Outcome Bytes
unfolding replace_home
apply_text_template env tmpl = do
  as_system ← env.run_as_system
  home ← env.home_dir
  if as_system
      then (env.logged_in_profile >>= λ profile. ok (replace_home profile 0 tmpl))
      else ok (replace_home home 0 tmpl)

abbrev HasNoDollar : Bytes → Type 0
HasNoDollar = All (λ c. (c == b'$') ≡ false)

replace_home-none : (home s : Bytes) → HasNoDollar s → replace_home home 0 s ≡ s
unfolding replace_home
replace_home-none home [] h = refl
replace_home-none home (c ∷ s) h = ground (arith, replace_home-none home s h.1)

-- A destination below the home directory is resolved against the home of the user that runs the
-- program, or of the logged-in user where the program runs as SYSTEM.
apply_text_template-home :
    (env : TemplateEnv) (as_system : Bool) (home profile rest : Bytes)
    → env.run_as_system ≡ ok as_system
    → env.home_dir ≡ ok home
    → env.logged_in_profile ≡ ok profile
    → HasNoDollar rest
    → apply_text_template env (home_var ++ rest)
      ≡ ok ((if as_system then profile else home) ++ rest)
unfolding apply_text_template replace_home
apply_text_template-home env true home profile rest s h p n =
    rw s (rw h (rw p (rw (replace_home-none profile rest n))))
apply_text_template-home env false home profile rest s h p n =
    rw s (rw h (rw (replace_home-none home rest n)))

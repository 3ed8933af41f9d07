-- ===== src/Pipeline/Solutions.antt =====
-- Theorems on what the dispatch in gocode/cmd/aioagent/main.go sends for a match.
use cramc.Prelude.{
  ◌≡◌, refl, inl, inr, Bool, true, false, List, [], ◌∷◌, ◌++◌, arith, if◌then◌else◌, Bool-cases,
  Bytes, text_eq,
}
use cramc.Common.{YaraScanResult, SingleVirusSolution}
use cramc.Pipeline.{
  Sent, to_sanitizer, to_hardener, abandoned, doc_of, hardening_of, send_solutions,
  dispatch_matches,
}

-- The solutions for a rule, by name.
abbrev pub solutions_for : Bytes → List SingleVirusSolution → List SingleVirusSolution
solutions_for rule [] = []
solutions_for rule (s ∷ ss) =
    if text_eq s.name rule then s ∷ solutions_for rule ss else solutions_for rule ss

abbrev pub requests : Bool → YaraScanResult → List SingleVirusSolution → List Sent
requests hardening f [] = []
requests hardening f (s ∷ ss) =
    to_sanitizer (doc_of f s)
    ∷ (if hardening
        then to_hardener (hardening_of f s) ∷ requests hardening f ss
        else requests hardening f ss)

-- What a match is to lead to.
abbrev pub expected : Bool → YaraScanResult → List SingleVirusSolution → List Sent
expected hardening f [] = abandoned f.detected_rule ∷ []
expected hardening f (s ∷ ss) = requests hardening f (s ∷ ss)

send_solutions-found :
    (hardening : Bool) (f : YaraScanResult) (ss : List SingleVirusSolution)
    → send_solutions hardening f true ss ≡ requests hardening f (solutions_for f.detected_rule ss)
unfolding send_solutions
send_solutions-found hardening f [] = refl
send_solutions-found hardening f (s ∷ ss) = ground (arith, send_solutions-found hardening f ss)

send_solutions-expected :
    (hardening : Bool) (f : YaraScanResult) (ss : List SingleVirusSolution)
    → send_solutions hardening f false ss ≡ expected hardening f (solutions_for f.detected_rule ss)
unfolding send_solutions
send_solutions-expected hardening f [] = refl
send_solutions-expected hardening f (s ∷ ss) = elim (Bool-cases (text_eq s.name f.detected_rule)) [
  | inl t ↦ rw t (ground (arith, send_solutions-found hardening f ss))
  | inr n ↦ rw n (send_solutions-expected hardening f ss)
]

abbrev pub expected_all : Bool → List SingleVirusSolution → List YaraScanResult → List Sent
expected_all hardening solutions [] = []
expected_all hardening solutions (f ∷ fs) =
    expected hardening f (solutions_for f.detected_rule solutions)
    ++ expected_all hardening solutions fs

-- For each match in turn, every solution of the database that has the rule's name, in the order of
-- the database, gives a request to the sanitizer with its action and module, followed, if
-- hardening is enabled, by one to the hardener with its measures; a match whose rule has no
-- solution gives the warning and nothing else.
pub dispatch_matches-expected_all :
    (hardening : Bool) (solutions : List SingleVirusSolution) (fs : List YaraScanResult)
    → dispatch_matches hardening solutions fs ≡ expected_all hardening solutions fs
unfolding dispatch_matches
dispatch_matches-expected_all hardening solutions [] = refl
dispatch_matches-expected_all hardening solutions (f ∷ fs) =
    rw (send_solutions-expected hardening f solutions)
      (rw (dispatch_matches-expected_all hardening solutions fs))

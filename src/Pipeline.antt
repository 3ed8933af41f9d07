-- ===== src/Pipeline.antt =====
-- gocode/cmd/aioagent/main.go, the goroutine that hands each match of the scanner to the sanitizer
-- and to the hardener: what it sends on the two queues, in its order.
pub mod Solutions
pub mod Queues
use cramc.Prelude.{Bool, true, false, not, List, [], ◌∷◌, ◌++◌, if◌then◌else◌, Bytes, text_eq}
use cramc.Common.{YaraScanResult, SingleVirusSolution, IpcSingleDocToBeSanitized, HardeningAction}

-- A send on `common.SanitizeQueue`, one on `common.HardeningQueue`, and the warning about a rule
-- without a solution.
pub data Sent : Type 0 where
  to_sanitizer : IpcSingleDocToBeSanitized → Sent
  to_hardener : HardeningAction → Sent
  abandoned : Bytes → Sent

abbrev pub doc_of : YaraScanResult → SingleVirusSolution → IpcSingleDocToBeSanitized
doc_of f solu = record {
  path = f.file_path;
  action = solu.action;
  detection_name = f.detected_rule;
  dest_module = solu.dest_module;
}

abbrev pub hardening_of : YaraScanResult → SingleVirusSolution → HardeningAction
hardening_of f solu = record {
  name = f.detected_rule;
  allow_repeated_harden = solu.allow_repeated_harden;
  action_lst = solu.harden_measures;
}

-- One solution that has the name of the rule.
unfoldable pub send_solution : Bool → YaraScanResult → SingleVirusSolution → List Sent
send_solution enable_hardening f solu =
    to_sanitizer (doc_of f solu)
    ∷ (if enable_hardening then to_hardener (hardening_of f solu) ∷ [] else [])

-- The loop over `cleanupDBObj.Solutions`, and the warning behind it; `found_solu` as it stands.
unfoldable pub send_solutions : Bool → YaraScanResult → Bool → List SingleVirusSolution → List Sent
unfolding send_solution
send_solutions enable_hardening f found_solu [] =
    if not found_solu then abandoned f.detected_rule ∷ [] else []
send_solutions enable_hardening f found_solu (solu ∷ solus) =
    let here =
      send_solution enable_hardening f solu ++ send_solutions enable_hardening f true solus in
    let other = send_solutions enable_hardening f found_solu solus in
    if text_eq solu.name f.detected_rule then here else other

-- The loop over `scanMatchedFiles`.
unfoldable pub dispatch_matches : Bool → List SingleVirusSolution → List YaraScanResult → List Sent
dispatch_matches enable_hardening solutions [] = []
dispatch_matches enable_hardening solutions (f ∷ fs) =
    send_solutions enable_hardening f false solutions
    ++ dispatch_matches enable_hardening solutions fs

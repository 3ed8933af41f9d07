-- ===== src/Tests/Pipeline.antt =====
-- Two solutions for one rule, and more documents than the queue holds.
use mathlib.Core.WellFounded.{Acc}
use cramc.Pipeline.Queues.Ends.{After, IsEmpty, queues_end}
use cramc.Prelude.{
  ◌≡◌, refl, ◌≢◌, ◌⊎◌, inl, true, false, List, [], ◌∷◌, ◌++◌, arith, replicate, codes,
}
use cramc.Common.{YaraScanResult, SingleVirusSolution, IpcSingleDocToBeSanitized}
use cramc.Pipeline.{Sent, to_sanitizer, doc_of}
use cramc.Pipeline.Queues.{Queues, Step, here, next, send_doc, GoesOn, started, sender_never_ends}
use cramc.Pipeline.Queues.InOrder.{docs_of, documents_in_order}

abbrev pub solution : SingleVirusSolution
solution = record {
  name = codes "Laroux";
  dest_module = codes "laroux";
  action = codes "rm_module";
  must_harden = true;
  allow_repeated_harden = false;
  harden_measures = [];
}

abbrev pub found : YaraScanResult
found = record { detected_rule = codes "Laroux"; file_path = codes "C:/a.xls" }

abbrev doc : IpcSingleDocToBeSanitized
doc = doc_of found solution

abbrev many : List Sent
many = replicate 101 (to_sanitizer doc)

abbrev begun : Queues
begun = started false true many

abbrev first_sent : Queues
first_sent = record begun {
  remaining = replicate 100 (to_sanitizer doc);
  sanitize_queue = doc ∷ [];
}

first_send : Step begun first_sent
first_send = send_doc doc (replicate 100 (to_sanitizer doc)) refl (omega arith) refl

sender_never_ends_example : first_sent.remaining ≢ []
sender_never_ends_example =
    sender_never_ends false true many (inl (refl, omega arith)) (next here first_send)

abbrev running : Queues
running = started true true (to_sanitizer doc ∷ [])

queues_end_example :
    Acc After running
    × ((IsEmpty running ⊎ ((t : Queues) × GoesOn running t))
        ⊎ ((running.sanitizer_runs ≡ false) ⊎ (running.hardener_runs ≡ false)))
queues_end_example = queues_end running

documents_in_order_example :
    first_sent.taken ++ (first_sent.sanitize_queue ++ docs_of first_sent.remaining) ≡ docs_of many
documents_in_order_example = documents_in_order false true many (next here first_send)

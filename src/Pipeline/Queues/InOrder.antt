-- ===== src/Pipeline/Queues/InOrder.antt =====
-- The order of the documents on the queue of the sanitizer (gocode/cmd/aioagent/main.go).
use cramc.Prelude.{◌≡◌, refl, ap, ◌∙◌, Bool, List, [], ◌∷◌, ◌++◌, append_assoc}
use cramc.Common.{IpcSingleDocToBeSanitized}
use cramc.Pipeline.{Sent, to_sanitizer, to_hardener, abandoned}
use cramc.Pipeline.Queues.{
  Queues, Step, send_doc, send_hardening, warn, take_doc, wait_for_ever, take_hardening, Reach,
  here, next, started,
}

-- The documents among what is to be sent.
abbrev pub docs_of : List Sent → List IpcSingleDocToBeSanitized
docs_of [] = []
docs_of (to_sanitizer d ∷ more) = d ∷ docs_of more
docs_of (to_hardener a ∷ more) = docs_of more
docs_of (abandoned rule ∷ more) = docs_of more

-- Those that the sanitizer took, those in the queue and those to be sent.
abbrev pub all_docs : Queues → List IpcSingleDocToBeSanitized
all_docs q = q.taken ++ (q.sanitize_queue ++ docs_of q.remaining)

Step-all_docs : {q r : Queues} → Step q r → all_docs r ≡ all_docs q
Step-all_docs {q} (send_doc d more e s h) = rw h (
    rw e (
      ap (λ (l : List IpcSingleDocToBeSanitized). q.taken ++ l)
        (append_assoc q.sanitize_queue (d ∷ []) (docs_of more))))
Step-all_docs (send_hardening a more e s h) = rw h (rw e refl)
Step-all_docs (warn rule more e h) = rw h (rw e refl)
Step-all_docs {q} (take_doc d more s e h) =
    rw h (rw e (append_assoc q.taken (d ∷ []) (more ++ docs_of q.remaining)))
Step-all_docs (wait_for_ever s h) = rw h refl
Step-all_docs (take_hardening a more s e h) = rw h refl

Reach-all_docs : {q r : Queues} → Reach q r → all_docs r ≡ all_docs q
Reach-all_docs here = refl
Reach-all_docs (next reached s) = Step-all_docs s ∙ Reach-all_docs reached

-- However the goroutines run, whether or not a queue is emptied: what the sanitizer took, what is
-- queued for it and what is still to be sent are together the documents of the dispatch, each once
-- and in its order.
pub documents_in_order :
    (sanitizer hardener : Bool) (sends : List Sent) {r : Queues}
    → Reach (started sanitizer hardener sends) r
    → r.taken ++ (r.sanitize_queue ++ docs_of r.remaining) ≡ docs_of sends
documents_in_order sanitizer hardener sends reached = Reach-all_docs reached

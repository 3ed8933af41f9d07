-- ===== src/Pipeline/Queues.antt =====
-- The two queues of gocode/common/shared.go as buffered channels, with the goroutine that fills
-- them and the two that empty them (gocode/cmd/aioagent/main.go). A goroutine that was not started,
-- or that has returned, takes nothing. The sanitizer can also come to wait for ever in a call of its
-- client, between two documents.
pub mod InOrder
pub mod Ends
use cramc.Prelude.{
  ℕ, zero, suc, ◌+◌, ◌-◌, ◌*◌, ◌/◌, ◌%◌, ◌^◌, ◌≤◌, ◌<◌, String, ◌≡◌, refl, sym, ap, ◌∙◌, ◌≢◌, ◌↔◌,
  ◌⊎◌, inl, inr, Bool, true, false, not, ◌&&◌, ◌||◌, Option, none, some, List, [], ◌∷◌, ◌++◌, map,
  append-nil, append_assoc, arith, ltb, leb, ◌==◌, if◌then◌else◌, Bool-cases, Option-cases, length,
  take, drop, replicate, any, All, length-append, length-drop, take-append, drop-append, length-map,
  get_elem?, set, erase_at, get_elem?-append, set-append, erase_at-append, get_elem?-length, Bytes,
  codes, text_eq, text_eq_iff, text_eq_refl, text_eq-append, text_ne,
}
use cramc.Common.{IpcSingleDocToBeSanitized, HardeningAction}
use cramc.Pipeline.{Sent, to_sanitizer, to_hardener, abandoned}

-- `make(chan …, 100)`
abbrev pub queue_size : ℕ
queue_size = 100

pub record Queues : Type 0 where
  pub remaining : List Sent
  pub sanitize_queue : List IpcSingleDocToBeSanitized
  pub hardening_queue : List HardeningAction
  pub taken : List IpcSingleDocToBeSanitized
  pub sanitizer_runs : Bool
  pub hardener_runs : Bool

-- A send waits for space in the buffer, a receive for an element.
pub data Step (q r : Queues) : Type 0 where
  send_doc :
      (d : IpcSingleDocToBeSanitized) (more : List Sent)
      → q.remaining ≡ to_sanitizer d ∷ more
      → length q.sanitize_queue < queue_size
      → r ≡ record q { remaining = more; sanitize_queue = q.sanitize_queue ++ d ∷ [] }
      → Step q r
  send_hardening :
      (a : HardeningAction) (more : List Sent)
      → q.remaining ≡ to_hardener a ∷ more
      → length q.hardening_queue < queue_size
      → r ≡ record q { remaining = more; hardening_queue = q.hardening_queue ++ a ∷ [] }
      → Step q r
  warn :
      (rule : Bytes) (more : List Sent)
      → q.remaining ≡ abandoned rule ∷ more
      → r ≡ record q { remaining = more }
      → Step q r
  take_doc :
      (d : IpcSingleDocToBeSanitized) (more : List IpcSingleDocToBeSanitized)
      → q.sanitizer_runs ≡ true
      → q.sanitize_queue ≡ d ∷ more
      → r ≡ record q { sanitize_queue = more; taken = q.taken ++ d ∷ [] }
      → Step q r
  wait_for_ever : q.sanitizer_runs ≡ true → r ≡ record q { sanitizer_runs = false } → Step q r
  take_hardening :
      (a : HardeningAction) (more : List HardeningAction)
      → q.hardener_runs ≡ true
      → q.hardening_queue ≡ a ∷ more
      → r ≡ record q { hardening_queue = more }
      → Step q r

pub data Reach (q : Queues) : Queues → Type 0 where
  here : Reach q q
  next : {r t : Queues} → Reach q r → Step r t → Reach q t

abbrev is_doc : Sent → ℕ
is_doc (to_sanitizer d) = 1
is_doc _ = 0

abbrev is_hardening : Sent → ℕ
is_hardening (to_hardener a) = 1
is_hardening _ = 0

abbrev pub count_docs : List Sent → ℕ
count_docs [] = 0
count_docs (s ∷ ss) = is_doc s + count_docs ss

abbrev pub count_hardenings : List Sent → ℕ
count_hardenings [] = 0
count_hardenings (s ∷ ss) = is_hardening s + count_hardenings ss

-- Without a sanitizer nothing leaves its queue, which never holds more than its size.
record NoSanitizer (total : ℕ) (q : Queues) : Type 0 where
  not_running : q.sanitizer_runs ≡ false
  kept : length q.sanitize_queue + count_docs q.remaining ≡ total
  bounded : length q.sanitize_queue ≤ queue_size

Step-NoSanitizer : {total : ℕ} {q r : Queues} → Step q r → NoSanitizer total q → NoSanitizer total r
Step-NoSanitizer {q = q} (send_doc d more e s h) k =
    ground (arith, length-append q.sanitize_queue (d ∷ []), ap count_docs e)
Step-NoSanitizer (send_hardening a more e s h) k = ground (arith, ap count_docs e)
Step-NoSanitizer (warn rule more e h) k = ground (arith, ap count_docs e)
Step-NoSanitizer (take_doc d more e s h) k = ground arith
Step-NoSanitizer (wait_for_ever s h) k = ground arith
Step-NoSanitizer (take_hardening a more e s h) k = ground arith

Reach-NoSanitizer :
    {total : ℕ} {q r : Queues} → NoSanitizer total q → Reach q r → NoSanitizer total r
Reach-NoSanitizer k here = k
Reach-NoSanitizer k (next reached s) = Step-NoSanitizer s (Reach-NoSanitizer k reached)

-- The same of the other queue.
record NoHardener (total : ℕ) (q : Queues) : Type 0 where
  not_running : q.hardener_runs ≡ false
  kept : length q.hardening_queue + count_hardenings q.remaining ≡ total
  bounded : length q.hardening_queue ≤ queue_size

Step-NoHardener : {total : ℕ} {q r : Queues} → Step q r → NoHardener total q → NoHardener total r
Step-NoHardener {q = q} (send_hardening a more e s h) k =
    ground (arith, length-append q.hardening_queue (a ∷ []), ap count_hardenings e)
Step-NoHardener (send_doc d more e s h) k = ground (arith, ap count_hardenings e)
Step-NoHardener (warn rule more e h) k = ground (arith, ap count_hardenings e)
Step-NoHardener (take_doc d more e s h) k = ground arith
Step-NoHardener (wait_for_ever s h) k = ground arith
Step-NoHardener (take_hardening a more e s h) k = ground arith

Reach-NoHardener : {total : ℕ} {q r : Queues} → NoHardener total q → Reach q r → NoHardener total r
Reach-NoHardener k here = k
Reach-NoHardener k (next reached s) = Step-NoHardener s (Reach-NoHardener k reached)

-- The queues when the goroutines start.
abbrev pub started : Bool → Bool → List Sent → Queues
started sanitizer hardener sends = record {
  remaining = sends;
  sanitize_queue = [];
  hardening_queue = [];
  taken = [];
  sanitizer_runs = sanitizer;
  hardener_runs = hardener;
}

-- If nobody empties a queue and more than its size is to be sent on it, then the goroutine that
-- fills the queues never comes to its end, in whatever order the goroutines run.
pub sender_never_ends :
    (sanitizer hardener : Bool) (sends : List Sent) {r : Queues}
    → ((sanitizer ≡ false) × (queue_size < count_docs sends))
      ⊎ ((hardener ≡ false) × (queue_size < count_hardenings sends))
    → Reach (started sanitizer hardener sends) r
    → r.remaining ≢ []
sender_never_ends sanitizer hardener sends {r} (inl (off, more)) reached done =
    let k : NoSanitizer (count_docs sends) r =
      Reach-NoSanitizer (record { not_running = off; kept = omega arith; bounded = omega arith })
        reached in
    absurd (omega (arith, k.kept, k.bounded, ap count_docs done))
sender_never_ends sanitizer hardener sends {r} (inr (off, more)) reached done =
    let k : NoHardener (count_hardenings sends) r =
      Reach-NoHardener (record { not_running = off; kept = omega arith; bounded = omega arith })
        reached in
    absurd (omega (arith, k.kept, k.bounded, ap count_hardenings done))

-- The work that is left: two units for what is to be sent, one for what is queued, and one for a
-- sanitizer that does not wait for ever.
abbrev pub work : Queues → ℕ
work q =
    length q.remaining
    + length q.remaining
    + (length q.sanitize_queue + length q.hardening_queue + (if q.sanitizer_runs then 1 else 0))

-- Every step of any of the goroutines leaves less work than there was before it.
pub Step-work : {q r : Queues} → Step q r → work r < work q
Step-work {q = q} (send_doc d more e s h) =
    ground (arith, length-append q.sanitize_queue (d ∷ []), ap (length {A = Sent}) e)
Step-work {q = q} (send_hardening a more e s h) =
    ground (arith, length-append q.hardening_queue (a ∷ []), ap (length {A = Sent}) e)
Step-work (warn rule more e h) = ground (arith, ap (length {A = Sent}) e)
Step-work (take_doc d more e s h) = ground arith
Step-work (wait_for_ever s h) = ground arith
Step-work (take_hardening a more e s h) = ground arith

-- A step that is not that of a sanitizer that begins to wait for ever.
abbrev pub GoesOn : Queues → Queues → Type 0
GoesOn q r = Step q r × (r.sanitizer_runs ≡ q.sanitizer_runs)

-- What blocks a send is a full queue, and a full queue is one that can be emptied.
drain_docs :
    (q : Queues) (d : IpcSingleDocToBeSanitized) (more : List Sent)
    (docs : List IpcSingleDocToBeSanitized)
    → q.sanitizer_runs ≡ true
    → q.remaining ≡ to_sanitizer d ∷ more
    → q.sanitize_queue ≡ docs
    → (r : Queues) × GoesOn q r
drain_docs q d more [] runs e s = (
  _,
  (send_doc d more e (omega (arith, ap (length {A = IpcSingleDocToBeSanitized}) s)) refl, refl),
)
drain_docs q d more (x ∷ xs) runs e s = (_, (take_doc x xs runs s refl, refl))

drain_hardenings :
    (q : Queues) (a : HardeningAction) (more : List Sent) (as' : List HardeningAction)
    → q.hardener_runs ≡ true
    → q.remaining ≡ to_hardener a ∷ more
    → q.hardening_queue ≡ as'
    → (r : Queues) × GoesOn q r
drain_hardenings q a more [] runs e s =
    (_, (send_hardening a more e (omega (arith, ap (length {A = HardeningAction}) s)) refl, refl))
drain_hardenings q a more (x ∷ xs) runs e s = (_, (take_hardening x xs runs s refl, refl))

pub sending :
    (q : Queues) (sends : List Sent)
    → q.remaining ≡ sends
    → sends ≢ []
    → q.sanitizer_runs ≡ true
    → q.hardener_runs ≡ true
    → (r : Queues) × GoesOn q r
sending q [] e n s h = absurd (n refl)
sending q (to_sanitizer d ∷ more) e n s h = drain_docs q d more q.sanitize_queue s e refl
sending q (to_hardener a ∷ more) e n s h = drain_hardenings q a more q.hardening_queue h e refl
sending q (abandoned rule ∷ more) e n s h = (_, (warn rule more e refl, refl))

-- Where both queues are emptied there is no deadlock: while something is left to send some
-- goroutine can go on, with less work left after it.
queues_progress :
    (q : Queues)
    → q.sanitizer_runs ≡ true
    → q.hardener_runs ≡ true
    → q.remaining ≢ []
    → (r : Queues) × GoesOn q r × (work r < work q)
queues_progress q s h n = let (r, st) = sending q q.remaining refl n s h in (r, st, Step-work st.0)

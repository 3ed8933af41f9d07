-- ===== src/Rpc/Reader/Delivered.antt =====
-- Documents on a connection of gocode/sanitizer_ole/rpc_server.go, from the lines to the tasks.
use cramc.Prelude.{
  ◌≡◌, refl, sym, ap, ◌∙◌, ◌⊎◌, inl, inr, true, false, Option, none, some, List, [], ◌∷◌, ◌++◌, map,
  append-nil, All, Bool-cases, Bytes,
}
use cramc.Prelude.Outcome.{GoError, Outcome}
use cramc.Rpc.Codec.{Codec}
use cramc.Rpc.Server.{Server, Env, handle_rpc_connection}
use cramc.Rpc.Server.Queued.{Request, IsRequest, IsOpen, task_for, handle_rpc_connection-IsRequest}
use cramc.Rpc.Reader.{Conn, Reach, accepted}
use cramc.Rpc.Reader.Order.{lines_in_order, connection_served}

abbrev pub lines_of : List Request → List Bytes
lines_of rs = map (λ r. r.line) rs

-- Requests whose lines come in two parts.
map-split :
    (rs : List Request) (xs ys : List Bytes)
    → lines_of rs ≡ xs ++ ys
    → (before after : List Request) × (rs ≡ before ++ after) × (xs ≡ lines_of before)
map-split rs [] ys e = ([], rs, refl, refl)
map-split [] (x ∷ xs) ys e = absurd (cc)
map-split (r ∷ rs) (x ∷ xs) ys e =
    let (before, after, split, line) = map-split rs xs ys (cc) in
    (r ∷ before, after, ap (◌∷◌ r) split, cc)

All-before {ℓ} :
    (P : Request → Type ℓ) (before after : List Request) → All P (before ++ after) → All P before
All-before P [] after k = tt
All-before P (r ∷ before) after k = (k.0, All-before P before after k.1)

Option-result :
    (o : Option (Outcome (Unit {0}))) → (o ≡ none) ⊎ ((p : Outcome (Unit {0})) × (o ≡ some p))
Option-result none = inl refl
Option-result (some p) = inr (p, refl)

module _ (codec : Codec) (env : Env) (works : env.write_error ≡ none) (read_error : Option GoError)
    (rs : List Request) (s : Server) (open_s : IsOpen s)
    (requests : All (IsRequest codec env) rs) where
  abbrev Queued : Conn → Type 0
  Queued c =
      (before after : List Request) × (rs ≡ before ++ after)
      × (c.server.tasks ≡ s.tasks ++ map task_for before)
      × ((after ≡ []) ⊎ (c.result ≡ none) ⊎ (c.interrupted ≡ true))

  some-Queued :
      (c : Conn)
      → Reach codec env read_error (accepted (lines_of rs) s) c
      → (c.result ≡ none) ⊎ (c.interrupted ≡ true)
      → Queued c
  some-Queued c reached early =
      let (handled, rest, split, state) =
        lines_in_order codec env read_error (lines_of rs) s open_s.not_quitting reached in
      let (before, after, split', line) = map-split rs handled rest split in
      let ready = All-before (IsRequest codec env) before after (rw split' at requests) in
      let (o, tasks, still_open) =
        handle_rpc_connection-IsRequest codec env works before s open_s ready in
      (
        before,
        after,
        split',
        ap (λ (s : Server). s.tasks) (sym state)
            ∙ ap (λ (ls : List Bytes). (handle_rpc_connection codec env ls s).1.tasks) line
            ∙ tasks,
        inr early,
      )

  all-Queued :
      (c : Conn) (o : Outcome (Unit {0}))
      → Reach codec env read_error (accepted (lines_of rs) s) c
      → c.result ≡ some o
      → c.interrupted ≡ false
      → Queued c
  all-Queued c o reached over whole =
      let served =
        connection_served codec env read_error (lines_of rs) s o open_s.not_quitting reached over
          whole in
      let (returns, tasks, still_open) =
        handle_rpc_connection-IsRequest codec env works rs s open_s requests in
      (
        rs,
        [],
        sym (append-nil rs),
        ap (λ (r : Outcome (Unit {0}) × Server). r.1.tasks) (sym served) ∙ tasks,
        inl refl,
      )

  -- Requests for documents, sent on a working connection to a server that takes documents: however
  -- its goroutines run, the clean-up tasks that it has queued are those of the first of them, in
  -- their order and each once; and of all of them, once the loop has ended, unless an error of the
  -- reader or the end of the server has ended it.
  pub documents_queued :
      {c : Conn}
      → Reach codec env read_error (accepted (lines_of rs) s) c
      → (before after : List Request) × (rs ≡ before ++ after)
        × (c.server.tasks ≡ s.tasks ++ map task_for before)
        × ((after ≡ []) ⊎ (c.result ≡ none) ⊎ (c.interrupted ≡ true))
  documents_queued {c} reached = elim (Option-result c.result) [
    | inl n ↦ some-Queued c reached (inl n)
    | inr r ↦ elim (Bool-cases c.interrupted) [
      | inl t ↦ some-Queued c reached (inr t)
      | inr f ↦ all-Queued c r.0 reached r.1 f
    ]
  ]

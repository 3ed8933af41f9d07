-- ===== src/Rpc/Server/Queued.antt =====
-- A connection on which only documents come (`handleRPCConnection` and `handleMessage` of
-- gocode/sanitizer_ole/rpc_server.go).
use cramc.Prelude.{
  ◌≡◌, refl, sym, ap, ◌∙◌, true, false, none, List, [], ◌∷◌, ◌++◌, map, append-nil, append_assoc,
  All, arith, Bytes, codes, text_eq,
}
use cramc.Prelude.Outcome.{ok}
use cramc.Common.{IpcReqMessageBase, IpcSingleDocToBeSanitized}
use cramc.Rpc.Codec.{Codec, trim_space}
use cramc.Rpc.Server.{
  Server, Env, CleanTask, handle_sanitize, handle_message, handle_request, handle_line,
  handle_rpc_connection,
}
use cramc.Rpc.Server.Effects.{IsAccepted, task_of, handle_message_accepted}

-- A line, with the document that it asks to have sanitized and the absolute path of the document.
pub record Request : Type 0 where
  pub line : Bytes
  pub msg : IpcReqMessageBase
  pub doc : IpcSingleDocToBeSanitized
  pub path : Bytes

pub record IsRequest (codec : Codec) (env : Env) (r : Request) : Type 0 where
  pub not_blank : text_eq (trim_space r.line) [] ≡ false
  pub decodes : codec.unmarshal_request (trim_space r.line) ≡ ok r.msg
  pub has_client : text_eq r.msg.client_id [] ≡ false
  pub no_control : text_eq r.msg.msg_type (codes "control") ≡ false
  pub to_sanitize : text_eq r.msg.msg_type (codes "sanitize") ≡ true
  pub doc_decodes : codec.unmarshal_doc r.msg.msg_data ≡ ok r.doc
  pub resolves : env.abs r.doc.path ≡ ok r.path

abbrev pub task_for : Request → CleanTask
task_for r = task_of r.doc r.path

-- A server that takes documents.
pub record IsOpen (s : Server) : Type 0 where
  pub worker : s.e_worker_set ≡ true
  pub not_quitting : s.quit_closed ≡ false

module _ (codec : Codec) (env : Env) (works : env.write_error ≡ none) where
  handle_line_request :
      (r : Request) (s : Server)
      → IsRequest codec env r
      → handle_line codec env r.line s ≡ handle_message codec env r.msg s
  unfolding handle_line handle_request
  handle_line_request r s k = rw (k.not_blank) (rw (k.decodes) (rw (k.has_client)))

  handle_message_worker :
      (msg : IpcReqMessageBase) (doc : IpcSingleDocToBeSanitized) (path : Bytes) (s : Server)
      → IsAccepted codec env msg s doc path
      → (handle_message codec env msg s).1.e_worker_set ≡ true
  unfolding handle_message handle_sanitize
  handle_message_worker msg doc path s (n, t, d, ready, a) =
      rw n (rw t (rw d (ground (arith, works))))

  -- On a working connection to a server that takes documents, lines that are requests for documents
  -- are all handled, and their clean-up tasks are queued in their order, each once.
  pub handle_rpc_connection-IsRequest :
      (rs : List Request) (s : Server)
      → IsOpen s
      → All (IsRequest codec env) rs
      → let (o, t) = handle_rpc_connection codec env (map (λ r. r.line) rs) s in
        (o ≡ ok tt) × (t.tasks ≡ s.tasks ++ map task_for rs) × IsOpen t
  unfolding handle_rpc_connection
  handle_rpc_connection-IsRequest [] s open_s k = (refl, sym (append-nil s.tasks), open_s)
  handle_rpc_connection-IsRequest (r ∷ rs) s open_s k =
      let t = (handle_message codec env r.msg s).1 in
      let accepted : IsAccepted codec env r.msg s r.doc r.path =
        (k.0.no_control, k.0.to_sanitize, k.0.doc_decodes, open_s.worker, k.0.resolves) in
      let (returns, queued, backed_up, sends, closed) =
        handle_message_accepted codec env r.msg s r.doc r.path works accepted in
      let handled : handle_line codec env r.line s ≡ (ok none, t) =
        handle_line_request r s k.0 ∙ (λ i. (returns i, t)) in
      let quitting : t.quit_closed ≡ false = closed ∙ open_s.not_quitting in
      let (o, tasks, still_open) =
        handle_rpc_connection-IsRequest rs t
          (record {
            worker = handle_message_worker r.msg r.doc r.path s accepted;
            not_quitting = quitting;
          })
          k.1 in
      rw handled (
        rw quitting (
          o,
          tasks
              ∙ ap (λ (ts : List CleanTask). ts ++ map task_for rs) queued
              ∙ append_assoc s.tasks (task_for r ∷ []) (map task_for rs),
          still_open,
        ))

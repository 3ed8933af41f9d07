-- ===== src/Rpc/Server/Replies.antt =====
-- Theorems on the answers of `handleMessage` (gocode/sanitizer_ole/rpc_server.go).
use cramc.Prelude.{
  ℕ, ◌≡◌, sym, inl, inr, Bool, true, ◌||◌, none, List, [], ◌∷◌, ◌++◌, append-nil, arith,
  if◌then◌else◌, Bool-cases, Bytes, codes, text_eq,
}
use cramc.Prelude.Outcome.{Outcome, ok, err, panic, blocked}
use cramc.Common.{IpcReqMessageBase, IpcServerControl, IpcSingleDocToBeSanitized}
use cramc.Rpc.Codec.{Codec}
use cramc.Rpc.Server.{
  Server, Env, build_server_resp_in_bytes, handle_control, handle_sanitize, handle_message,
}

-- The protocol: the code and the text of the answer to a control action.
abbrev pub control_answer : Bytes → ℕ × Bytes
control_answer action =
    if text_eq action (codes "ping")
    then (200, codes "pong")
    else if text_eq action (codes "disconn") || text_eq action (codes "quit")
    then (200, codes "ack")
    else (400, codes "invalid request")

abbrev pub control_answers : Outcome IpcServerControl → List (ℕ × Bytes)
control_answers (ok c) = control_answer c.control_action ∷ []
control_answers _ = []

abbrev pub sanitize_answers : Bool → Outcome Bytes → List (ℕ × Bytes)
sanitize_answers true (ok path) = (202, codes "file enqueued") ∷ []
sanitize_answers _ _ = []

abbrev pub doc_answers : Env → Bool → Outcome IpcSingleDocToBeSanitized → List (ℕ × Bytes)
doc_answers env ready (ok doc) = sanitize_answers ready (env.abs doc.path)
doc_answers env ready _ = []

-- The answers that a request gets: none or one.
abbrev pub answers_to : Codec → Env → IpcReqMessageBase → Server → List (ℕ × Bytes)
answers_to codec env msg s =
    if text_eq msg.msg_type (codes "control")
    then control_answers (codec.unmarshal_control msg.msg_data)
    else if text_eq msg.msg_type (codes "sanitize")
    then doc_answers env s.e_worker_set (codec.unmarshal_doc msg.msg_data)
    else []

module _ (codec : Codec) (env : Env) where
  abbrev pub lines_of : IpcReqMessageBase → List (ℕ × Bytes) → List Bytes
  lines_of msg [] = []
  lines_of msg ((code, text) ∷ more) =
      (codec.marshal_resp (record {
        client_id = msg.client_id;
        message_id = msg.message_id;
        result_code = code;
        additional_msg = text;
      })
        ++ b'\n' ∷ [])
      ∷ lines_of msg more

  handle_control_answers :
      (msg : IpcReqMessageBase) (control : Outcome IpcServerControl) (s : Server)
      → env.write_error ≡ none
      → (handle_control codec env msg control s).1.written
        ≡ s.written ++ lines_of msg (control_answers control)
  unfolding handle_control build_server_resp_in_bytes
  handle_control_answers msg (ok control) s h = ground arith
  handle_control_answers msg (err e) s h = ground (arith, append-nil s.written)
  handle_control_answers msg panic s h = ground (arith, append-nil s.written)
  handle_control_answers msg blocked s h = ground (arith, append-nil s.written)

  handle_sanitize_answers :
      (msg : IpcReqMessageBase) (doc : Outcome IpcSingleDocToBeSanitized) (s : Server)
      → env.write_error ≡ none
      → (handle_sanitize codec env msg doc s).1.written
        ≡ s.written ++ lines_of msg (doc_answers env s.e_worker_set doc)
  unfolding handle_sanitize build_server_resp_in_bytes
  handle_sanitize_answers msg (ok doc) s h = ground (arith, append-nil s.written)
  handle_sanitize_answers msg (err e) s h = ground (arith, append-nil s.written)
  handle_sanitize_answers msg panic s h = ground (arith, append-nil s.written)
  handle_sanitize_answers msg blocked s h = ground (arith, append-nil s.written)

-- On a working connection a message adds exactly the lines of the protocol: one answer, with the
-- message's own client and message id, to a control message that decodes, and to a document that
-- decodes where the worker is ready and the path resolves; none to anything else.
pub handle_message_answers :
    (codec : Codec) (env : Env) (msg : IpcReqMessageBase) (s : Server)
    → env.write_error ≡ none
    → (handle_message codec env msg s).1.written
      ≡ s.written ++ lines_of codec env msg (answers_to codec env msg s)
unfolding handle_message
handle_message_answers codec env msg s h =
    elim (Bool-cases (text_eq msg.msg_type (codes "control"))) [
      | inl c ↦
          rw c (handle_control_answers codec env msg (codec.unmarshal_control msg.msg_data) s h)
      | inr n ↦ elim (Bool-cases (text_eq msg.msg_type (codes "sanitize"))) [
        | inl t ↦
            rw n
              (rw t (handle_sanitize_answers codec env msg (codec.unmarshal_doc msg.msg_data) s h))
        | inr f ↦ rw n (rw f (sym (append-nil s.written)))
      ]
    ]

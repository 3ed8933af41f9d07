-- ===== src/Rpc/Server/Effects.antt =====
-- Theorems on what `handleMessage` (gocode/sanitizer_ole/rpc_server.go) does besides its answer:
-- clean-up tasks, backups, and the channel `quit`.
use cramc.Prelude.{
  ◌≡◌, ◌⊎◌, inl, inr, true, false, Option, none, some, List, [], ◌∷◌, ◌++◌, append-nil, arith,
  Bytes, codes, text_eq, text_eq_iff,
}
use cramc.Prelude.Outcome.{GoError, ok, panic}
use cramc.Common.{IpcReqMessageBase, IpcServerControl, IpcSingleDocToBeSanitized}
use cramc.Rpc.Codec.{Codec}
use cramc.Rpc.Server.{Server, Env, CleanTask, handle_control, handle_sanitize, handle_message}

abbrev pub IsAccepted :
    Codec → Env → IpcReqMessageBase → Server → IpcSingleDocToBeSanitized → Bytes → Type 0
IsAccepted codec env msg s doc path =
    (text_eq msg.msg_type (codes "control") ≡ false)
    × (text_eq msg.msg_type (codes "sanitize") ≡ true)
    × (codec.unmarshal_doc msg.msg_data ≡ ok doc)
    × (s.e_worker_set ≡ true)
    × (env.abs doc.path ≡ ok path)

abbrev pub task_of : IpcSingleDocToBeSanitized → Bytes → CleanTask
task_of doc path = record { path = path; action = doc.action; dest_module = doc.dest_module }

abbrev pub backup_of : Option GoError → Bytes → List Bytes
backup_of none path = path ∷ []
backup_of (some e) path = []

sanitize_accepted :
    (codec : Codec) (env : Env) (msg : IpcReqMessageBase) (s : Server)
    (doc : IpcSingleDocToBeSanitized) (path : Bytes)
    → env.write_error ≡ none
    → s.e_worker_set ≡ true
    → env.abs doc.path ≡ ok path
    → let (r, t) = handle_sanitize codec env msg (ok doc) s in
      (r ≡ ok none)
      × (t.tasks ≡ s.tasks ++ task_of doc path ∷ [])
      × (t.backed_up ≡ s.backed_up ++ backup_of (env.gz_bak_file path) path)
      × (t.quit_sends ≡ s.quit_sends)
      × (t.quit_closed ≡ s.quit_closed)
unfolding handle_sanitize
sanitize_accepted codec env msg s doc path w ready a = ground (arith, append-nil s.backed_up)

-- A document that the server accepts on a working connection is queued for cleaning under its
-- absolute path, with the action and module asked for, whether or not its backup was made; the
-- backup is recorded exactly if it was made, and the channel `quit` is left alone.
pub handle_message_accepted :
    (codec : Codec) (env : Env) (msg : IpcReqMessageBase) (s : Server)
    (doc : IpcSingleDocToBeSanitized) (path : Bytes)
    → env.write_error ≡ none
    → IsAccepted codec env msg s doc path
    → let (r, t) = handle_message codec env msg s in
      (r ≡ ok none)
      × (t.tasks ≡ s.tasks ++ task_of doc path ∷ [])
      × (t.backed_up ≡ s.backed_up ++ backup_of (env.gz_bak_file path) path)
      × (t.quit_sends ≡ s.quit_sends)
      × (t.quit_closed ≡ s.quit_closed)
unfolding handle_message
handle_message_accepted codec env msg s doc path w (n, t, d, ready, a) =
    rw (n) (rw t (rw d (sanitize_accepted codec env msg s doc path w ready a)))

-- The server with a closed `quit`, or without a worker: the two ways in which a message asks for
-- a send on that channel.
abbrev pub AsksToQuit : Codec → IpcReqMessageBase → Server → Type 0
AsksToQuit codec msg s =
    ((text_eq msg.msg_type (codes "control") ≡ true)
      × ((c : IpcServerControl) × (codec.unmarshal_control msg.msg_data ≡ ok c)
          × (text_eq c.control_action (codes "quit") ≡ true)))
    ⊎ ((text_eq msg.msg_type (codes "control") ≡ false)
        × (text_eq msg.msg_type (codes "sanitize") ≡ true)
        × ((d : IpcSingleDocToBeSanitized) × (codec.unmarshal_doc msg.msg_data ≡ ok d)
            × (s.e_worker_set ≡ false)))

quit_panics :
    (codec : Codec) (env : Env) (msg : IpcReqMessageBase) (c : IpcServerControl) (s : Server)
    → text_eq c.control_action (codes "quit") ≡ true
    → s.quit_closed ≡ true
    → (handle_control codec env msg (ok c) s).0 ≡ panic
unfolding handle_control
quit_panics codec env msg c s t q =
    rw ((text_eq_iff c.control_action (codes "quit")).0 t) (unfold text_eq in ground arith)

sanitize_panics :
    (codec : Codec) (env : Env) (msg : IpcReqMessageBase) (d : IpcSingleDocToBeSanitized)
    (s : Server)
    → s.e_worker_set ≡ false
    → s.quit_closed ≡ true
    → (handle_sanitize codec env msg (ok d) s).0 ≡ panic
unfolding handle_sanitize
sanitize_panics codec env msg d s n q = ground arith

-- Once `quit` is closed, a further message that asks to quit, or a document for a server whose
-- worker is not there, ends the process: it sends on the closed channel.
handle_message_panics :
    (codec : Codec) (env : Env) (msg : IpcReqMessageBase) (s : Server)
    → AsksToQuit codec msg s
    → s.quit_closed ≡ true
    → (handle_message codec env msg s).0 ≡ panic
unfolding handle_message
handle_message_panics codec env msg s (inl (t, (c, d, quit))) q =
    rw t (rw d (quit_panics codec env msg c s quit q))
handle_message_panics codec env msg s (inr (n, t, (d, e, unready))) q =
    rw n (rw t (rw e (sanitize_panics codec env msg d s unready q)))

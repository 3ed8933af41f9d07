-- ===== src/Rpc/Server.antt =====
-- gocode/sanitizer_ole/rpc_server.go: `handleMessage`, `buildServerRespInBytes` and the loop of
-- `handleRPCConnection`. What the handlers do to the world is a record: the lines written to the
-- connection, what is sent on or done to the channel `quit`, the backups tried and the clean-up
-- goroutines started. Logs and the pause of a second are left out. A send on `quit` is taken by
-- the server's own `select` or by a connection's watcher, and panics once the channel is closed.
pub mod Replies
pub mod Effects
pub mod Connection
pub mod Queued
use cramc.Prelude.{
  ℕ, ◌+◌, Bool, true, false, not, Option, none, some, List, [], ◌∷◌, ◌++◌, if◌then◌else◌, Bytes,
  codes, text_eq,
}
use cramc.Prelude.Outcome.{
  GoError, Outcome, ok, err, panic, blocked, ◌>>=◌, excel_worker_uninitialized,
}
use cramc.Common.{IpcReqMessageBase, IpcServerControl, IpcSingleDocToBeSanitized, IpcMessageResp}
use cramc.Rpc.Codec.{Codec, trim_space}

-- A call of `excelFileCleanProcedure`.
pub record CleanTask : Type 0 where
  pub path : Bytes
  pub action : Bytes
  pub dest_module : Bytes

pub record Server : Type 0 where
  pub e_worker_set : Bool
  pub quit_closed : Bool
  pub quit_sends : ℕ
  pub written : List Bytes
  pub backed_up : List Bytes
  pub tasks : List CleanTask

-- What the handlers call: the connection's `Write` (`none` is success), `filepath.Abs`, and
-- `gzBakFile`.
pub record Env : Type 0 where
  pub write_error : Option GoError
  pub abs : Bytes → Outcome Bytes
  pub gz_bak_file : Bytes → Option GoError

-- `NewRPCServer`, by the error of `winio.ListenPipe`: the worker is not there yet.
unfoldable pub new_rpc_server : Option GoError → Outcome Server
new_rpc_server (some e) = err e
new_rpc_server none = ok (record {
  e_worker_set = false;
  quit_closed = false;
  quit_sends = 0;
  written = [];
  backed_up = [];
  tasks = [];
})

-- A handler returns its error, if any; `panic` ends the process.
abbrev pub Handled : Type 0
Handled = Outcome (Option GoError) × Server

module _ (codec : Codec) (env : Env) where
  unfoldable pub build_server_resp_in_bytes : IpcReqMessageBase → ℕ → Bytes → Bytes
  build_server_resp_in_bytes msg code text =
      codec.marshal_resp (record {
        client_id = msg.client_id;
        message_id = msg.message_id;
        result_code = code;
        additional_msg = text;
      })
      ++ b'\n' ∷ []

  -- `conn.Write`: a failed write reaches nobody.
  unfoldable pub write : Bytes → Server → Server
  write line s = elim env.write_error [
    | none ↦ record s { written = s.written ++ line ∷ [] }
    | some e ↦ s
  ]

  -- `r.quit <- struct{}{}`
  unfoldable pub send_quit : Server → Outcome Server
  send_quit s = if s.quit_closed then panic else ok (record s { quit_sends = s.quit_sends + 1 })

  abbrev closing : Outcome Server → Handled → Handled
  closing (ok s) h = (ok env.write_error, record s { quit_closed = true })
  closing (err e) (r, s) = (err e, s)
  closing panic (r, s) = (panic, s)
  closing blocked (r, s) = (blocked, s)

  unfoldable pub handle_control : IpcReqMessageBase → Outcome IpcServerControl → Server → Handled
  unfolding write send_quit
  handle_control msg (ok control) s =
      let reply = λ (code : ℕ) (text : Bytes). write (build_server_resp_in_bytes msg code text) s in
      if text_eq control.control_action (codes "ping")
      then (ok env.write_error, reply 200 (codes "pong"))
      else if text_eq control.control_action (codes "disconn")
      then (ok env.write_error, reply 200 (codes "ack"))
      else if text_eq control.control_action (codes "quit")
      then closing (send_quit (reply 200 (codes "ack"))) (panic, reply 200 (codes "ack"))
      else (ok env.write_error, reply 400 (codes "invalid request"))
  handle_control msg (err e) s = (ok (some e), s)
  handle_control msg panic s = (panic, s)
  handle_control msg blocked s = (blocked, s)

  -- The worker is not there: the error is returned after the send on `quit`.
  abbrev refused : Outcome Server → Server → Handled
  refused (ok s') s = (ok (some excel_worker_uninitialized), s')
  refused (err e) s = (err e, s)
  refused panic s = (panic, s)
  refused blocked s = (blocked, s)

  abbrev enqueued : Option GoError → CleanTask → Server → Handled
  enqueued none task s = (ok none, record s { tasks = s.tasks ++ task ∷ [] })
  enqueued (some e) task s = (ok (some e), s)

  abbrev after_backup : Option GoError → Bytes → Server → Server
  after_backup none path s = record s { backed_up = s.backed_up ++ path ∷ [] }
  after_backup (some e) path s = s

  -- From the absolute path on: the error of the backup is only logged.
  unfoldable pub sanitize_at :
      IpcReqMessageBase → IpcSingleDocToBeSanitized → Outcome Bytes → Server → Handled
  unfolding write
  sanitize_at msg doc (ok path) s =
      let task : CleanTask = record {
        path = path;
        action = doc.action;
        dest_module = doc.dest_module;
      } in
      enqueued env.write_error task (
        write (build_server_resp_in_bytes msg 202 (codes "file enqueued"))
          (after_backup (env.gz_bak_file path) path s))
  sanitize_at msg doc (err e) s = (ok (some e), s)
  sanitize_at msg doc panic s = (panic, s)
  sanitize_at msg doc blocked s = (blocked, s)

  unfoldable pub handle_sanitize :
      IpcReqMessageBase → Outcome IpcSingleDocToBeSanitized → Server → Handled
  unfolding send_quit sanitize_at
  handle_sanitize msg (ok doc) s =
      if not s.e_worker_set
      then refused (send_quit s) s
      else sanitize_at msg doc (env.abs doc.path) s
  handle_sanitize msg (err e) s = (ok (some e), s)
  handle_sanitize msg panic s = (panic, s)
  handle_sanitize msg blocked s = (blocked, s)

  unfoldable pub handle_message : IpcReqMessageBase → Server → Handled
  unfolding handle_control handle_sanitize
  handle_message msg s =
      if text_eq msg.msg_type (codes "control")
      then handle_control msg (codec.unmarshal_control msg.msg_data) s
      else if text_eq msg.msg_type (codes "sanitize")
      then handle_sanitize msg (codec.unmarshal_doc msg.msg_data) s
      else (ok none, s)

  -- One message of the connection: a blank line, one that is no request and one with no client id
  -- are passed over. The error of a handler is only logged.
  unfoldable pub handle_request : Outcome IpcReqMessageBase → Server → Handled
  handle_request (ok msg) s =
      if text_eq msg.client_id [] then (ok none, s) else handle_message msg s
  handle_request (err e) s = (ok none, s)
  handle_request panic s = (panic, s)
  handle_request blocked s = (blocked, s)

  unfoldable pub handle_line : Bytes → Server → Handled
  unfolding handle_request
  handle_line line s =
      if text_eq (trim_space line) []
      then (ok none, s)
      else handle_request (codec.unmarshal_request (trim_space line)) s

  -- Behind the handler: the loop ends if `quit` is closed.
  abbrev pub go_on : Handled → (Server → Outcome (Unit {0}) × Server) → Outcome (Unit {0}) × Server
  go_on (ok e, t) rest = if t.quit_closed then (ok tt, t) else rest t
  go_on (err e, t) rest = (err e, t)
  go_on (panic, t) rest = (panic, t)
  go_on (blocked, t) rest = (blocked, t)

  -- `handleRPCConnection` over the lines that its scanner reads: it returns when `quit` is closed
  -- after a message. (Another connection that closes it may end the loop earlier.)
  unfoldable pub handle_rpc_connection : List Bytes → Server → Outcome (Unit {0}) × Server
  handle_rpc_connection [] s = (ok tt, s)
  handle_rpc_connection (line ∷ lines) s =
      go_on (handle_line line s) (λ t. handle_rpc_connection lines t)

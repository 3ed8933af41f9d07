-- ===== src/Rpc/EndToEnd.antt =====
-- The client of gocode/sanitizer_ole/rpc_client.go connected to the server of rpc_server.go. What
-- the peer of the client responds to a line is what the server writes when it handles it, as the
-- scanner of the client cuts it, without the newline; it hangs up when a line closes `quit`.
use cramc.Prelude.{
  ℕ, ◌-◌, ◌≡◌, refl, ap, ◌∙◌, ◌≢◌, Bool, true, false, ◌||◌, Option, none, List, [], ◌∷◌, ◌++◌, map,
  arith, length, take, any, length-append, take-append, Bytes, codes, text_eq,
}
use cramc.Prelude.Outcome.{GoError, ok, err, blocked, unknown_internal_error}
use cramc.Common.{IpcReqMessageBase, IpcSingleDocToBeSanitized}
use cramc.Rpc.Codec.{Codec, IsCodec, IsAscii}
use cramc.Rpc.Server.{
  Handled, Server, Env, handle_line, handle_control, send_quit, write, build_server_resp_in_bytes,
}
use cramc.Rpc.Server.Connection.{
  control_request, control_resp, control_round_trip, handle_line-control,
}
use cramc.Rpc.Client.Monad.{Client}
use cramc.Rpc.Client.Waiting.{
  AnswersOnce, control_line, told, sanitize_loop-blocked, request_terminate_and_disconnect_fails,
}
use cramc.Rpc.Client.{Peer, sanitize_loop, request_terminate_and_disconnect}

-- A line without its newline.
abbrev line_text : Bytes → Bytes
line_text line = take (length line - 1) line

-- A server on a fresh connection.
abbrev pub fresh : Server → Server
fresh s = record s { written = [] }

module _ (codec : Codec) (env : Env) (s : Server) where
  unfoldable pub responses : Bytes → List Bytes
  responses line = map line_text (handle_line codec env line (fresh s)).1.written

  unfoldable pub closes_quit : Bytes → Bool
  closes_quit line = (handle_line codec env line (fresh s)).1.quit_closed

  -- The server as the peer of a client, with the client's clock and the outcomes of dialling.
  abbrev pub served : (List Bytes → ℕ) → (ℕ → Option GoError) → Peer
  served clock dial = record {
    respond = responses;
    hangs_up = any closes_quit;
    write_error = none;
    clock = clock;
    dial = dial;
  }

or_false : (b : Bool) → (b || false) ≡ b
or_false true = refl
or_false false = refl

line_text-append : (answer : Bytes) → line_text (answer ++ b'\n' ∷ []) ≡ answer
line_text-append answer =
    take-append answer (b'\n' ∷ []) (length (answer ++ b'\n' ∷ []) - 1)
      (omega (arith, length-append answer (b'\n' ∷ [])))

-- On a working connection, a ping leaves `quit` as it is, and a request to quit closes it.
module _ (codec : Codec) (env : Env) (msg : IpcReqMessageBase) (s : Server)
    (writes : env.write_error ≡ none) where
  write_open :
      (line : Bytes) → write codec env line s ≡ record s { written = s.written ++ line ∷ [] }
  unfolding write
  write_open line = rw writes

  handle_control-ping :
      (handle_control codec env msg (ok (record { control_action = codes "ping" })) s).1.quit_closed
      ≡ s.quit_closed
  unfolding handle_control text_eq
  handle_control-ping =
      ap (λ (t : Server). t.quit_closed)
        (write_open (build_server_resp_in_bytes codec env msg 200 (codes "pong")))

  handle_control-quit :
      s.quit_closed ≡ false
      → (handle_control codec env msg
          (ok (record { control_action = codes "quit" }))
          s).1.quit_closed
        ≡ true
  unfolding handle_control text_eq send_quit
  handle_control-quit open_quit =
      rw (write_open (build_server_resp_in_bytes codec env msg 200 (codes "ack"))) (rw open_quit)

pub record IsConnected (c : Client) : Type 0 where
  pub connected : c.connected ≡ true
  pub curr_conn : c.curr_conn ≡ true
  pub nothing_sent : c.sent ≡ []
  pub nothing_pending : c.pending ≡ []

module _ (codec : Codec) (env : Env) (s : Server) (clock : List Bytes → ℕ)
    (dial : ℕ → Option GoError) (client_id action : Bytes) (c : Client) (laws : IsCodec codec)
    (writes : env.write_error ≡ none) (ascii : IsAscii client_id) (named : client_id ≢ [])
    (ascii_action : IsAscii action) (fresh_client : IsConnected c) where
  abbrev asked : Bytes
  asked = control_line codec (served codec env s clock dial) client_id c action

  answered : AnswersOnce codec (served codec env s clock dial) c asked
  unfolding responses
  answered =
      let (answer, w, d) =
        control_round_trip codec env client_id (clock c.sent) action (fresh s) laws writes ascii
          named ascii_action in
      record {
        connected = fresh_client.connected;
        curr_conn = fresh_client.curr_conn;
        nothing_pending = fresh_client.nothing_pending;
        writable = refl;
        answer = answer;
        resp = control_resp client_id (clock c.sent) action;
        once = rw w (ap (λ x. x ∷ []) (line_text-append answer));
        decodes = d;
      }

  closes_quit-control :
      closes_quit codec env s asked
      ≡ (handle_control codec env
          (control_request codec client_id (clock c.sent) action)
          (ok (record { control_action = action }))
          (fresh s)).1.quit_closed
  unfolding closes_quit
  closes_quit-control =
      ap (λ (r : Handled). r.1.quit_closed)
        (handle_line-control codec laws env client_id (clock c.sent) action (fresh s) ascii named
          ascii_action)

  hangs_up-control :
      any (closes_quit codec env s) (c.sent ++ asked ∷ [])
      ≡ (handle_control codec env
          (control_request codec client_id (clock c.sent) action)
          (ok (record { control_action = action }))
          (fresh s)).1.quit_closed
  hangs_up-control =
      ap (λ (sent : List Bytes). any (closes_quit codec env s) (sent ++ asked ∷ []))
        fresh_client.nothing_sent
      ∙ or_false (closes_quit codec env s asked)
      ∙ closes_quit-control

-- The client of the agent with the server of the helper: on a fresh connection, with a document in
-- the queue, the loop sends one ping, to which the server gives its one answer, and waits for ever.
-- It sends no document.
pub sanitize_loop-served :
    (codec : Codec) (env : Env) (s : Server) (clock : List Bytes → ℕ) (dial : ℕ → Option GoError)
    (client_id : Bytes) (c : Client) (doc : IpcSingleDocToBeSanitized)
    (docs : List IpcSingleDocToBeSanitized)
    → IsCodec codec
    → env.write_error ≡ none
    → IsAscii client_id
    → client_id ≢ []
    → IsConnected c
    → s.quit_closed ≡ false
    → let peer = served codec env s clock dial in
      sanitize_loop codec peer client_id (doc ∷ docs) c
      ≡ (blocked, told c (control_line codec peer client_id c (codes "ping")))
sanitize_loop-served codec env s clock dial client_id c doc docs laws writes ascii named
      fresh_client open_quit =
    sanitize_loop-blocked codec (served codec env s clock dial) client_id c doc docs
      (answered codec env s clock dial client_id (codes "ping") c laws writes ascii named
        (omega arith) fresh_client)
      (hangs_up-control codec env s clock dial client_id (codes "ping") c laws writes ascii named
          (omega arith) fresh_client
        ∙ handle_control-ping codec env
            (control_request codec client_id (clock c.sent) (codes "ping")) (fresh s) writes
        ∙ open_quit)

-- Nor is the helper told apart from a broken one when it is asked to quit: on a fresh connection it
-- acknowledges, closes its channel `quit` and hangs up, and the client reports an internal error.
pub request_terminate_and_disconnect-served :
    (codec : Codec) (env : Env) (s : Server) (clock : List Bytes → ℕ) (dial : ℕ → Option GoError)
    (client_id : Bytes) (c : Client)
    → IsCodec codec
    → env.write_error ≡ none
    → IsAscii client_id
    → client_id ≢ []
    → IsConnected c
    → s.quit_closed ≡ false
    → let peer = served codec env s clock dial in
      let line = control_line codec peer client_id c (codes "quit") in
      (closes_quit codec env s line ≡ true)
      × (request_terminate_and_disconnect codec peer client_id c
          ≡ (err unknown_internal_error, told c line))
request_terminate_and_disconnect-served codec env s clock dial client_id c laws writes ascii named
      fresh_client open_quit =
    (
      closes_quit-control codec env s clock dial client_id (codes "quit") c laws writes ascii named
            (omega arith) fresh_client
          ∙ handle_control-quit codec env
              (control_request codec client_id (clock c.sent) (codes "quit")) (fresh s) writes
              open_quit,
      request_terminate_and_disconnect_fails codec (served codec env s clock dial) client_id c
          (answered codec env s clock dial client_id (codes "quit") c laws writes ascii named
            (omega arith) fresh_client)
          (hangs_up-control codec env s clock dial client_id (codes "quit") c laws writes ascii
              named (omega arith) fresh_client
            ∙ handle_control-quit codec env
                (control_request codec client_id (clock c.sent) (codes "quit")) (fresh s) writes
                open_quit),
    )

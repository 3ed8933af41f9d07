-- ===== src/Rpc/Client/Waiting.antt =====
-- Theorems on the client of gocode/sanitizer_ole/rpc_client.go with a server that answers each
-- request by one line, as Rpc/Server does.
use cramc.Prelude.{◌≡◌, true, false, none, List, [], ◌∷◌, ◌++◌, Bytes, codes}
use cramc.Prelude.Outcome.{ok, err, blocked, unknown_internal_error}
use cramc.Common.{IpcMessageResp, IpcSingleDocToBeSanitized}
use cramc.Rpc.Codec.{Codec}
use cramc.Rpc.Client.Monad.{Client}
use cramc.Rpc.Client.{
  Peer, send_control_message, request_terminate_and_disconnect, ping, sanitize_loop, sanitize_round,
}

-- The line of a control message.
abbrev pub control_line : Codec → Peer → Bytes → Client → Bytes → Bytes
control_line codec peer client_id c action = codec.marshal_request (record {
  client_id = client_id;
  message_id = peer.clock c.sent;
  msg_type = codes "control";
  msg_data = codec.marshal_control (record { control_action = action });
})

-- A fresh connection to a server that answers this line once and stays.
pub record AnswersOnce (codec : Codec) (peer : Peer) (c : Client) (line : Bytes) : Type 0 where
  pub connected : c.connected ≡ true
  pub curr_conn : c.curr_conn ≡ true
  pub nothing_pending : c.pending ≡ []
  pub writable : peer.write_error ≡ none
  pub answer : Bytes
  pub resp : IpcMessageResp
  pub once : peer.respond line ≡ answer ∷ []
  pub decodes : codec.unmarshal_resp answer ≡ ok resp

abbrev pub told : Client → Bytes → Client
told c line = record c { pending = []; sent = c.sent ++ line ∷ [] }

module _ (codec : Codec) (peer : Peer) (client_id : Bytes) (c : Client) where
  pub send_control_message_once :
      (action : Bytes)
      → AnswersOnce codec peer c (control_line codec peer client_id c action)
      → send_control_message codec peer client_id action c
        ≡ (ok (peer.clock c.sent), told c (control_line codec peer client_id c action))
  unfolding send_control_message
  send_control_message_once action h =
      simp (h.connected, h.curr_conn, h.writable, h.once, h.nothing_pending, h.decodes)

-- `Ping` sends its one line, takes the answer as that of `SendControlMessage`, and then waits for
-- a second answer to it, which a server that answers once and stays does not give.
ping-blocked :
    (codec : Codec) (peer : Peer) (client_id : Bytes) (c : Client)
    → AnswersOnce codec peer c (control_line codec peer client_id c (codes "ping"))
    → peer.hangs_up (c.sent ++ control_line codec peer client_id c (codes "ping") ∷ []) ≡ false
    → ping codec peer client_id c
      ≡ (blocked, told c (control_line codec peer client_id c (codes "ping")))
unfolding ping
ping-blocked codec peer client_id c h stays =
    simp (h.connected, h.curr_conn, h.writable, h.once, h.nothing_pending, h.decodes, stays)

-- So the loop over the sanitize queue never gets past its first document: nothing but the line of
-- the first ping is ever sent, and no document.
pub sanitize_loop-blocked :
    (codec : Codec) (peer : Peer) (client_id : Bytes) (c : Client) (doc : IpcSingleDocToBeSanitized)
    (docs : List IpcSingleDocToBeSanitized)
    → AnswersOnce codec peer c (control_line codec peer client_id c (codes "ping"))
    → peer.hangs_up (c.sent ++ control_line codec peer client_id c (codes "ping") ∷ []) ≡ false
    → sanitize_loop codec peer client_id (doc ∷ docs) c
      ≡ (blocked, told c (control_line codec peer client_id c (codes "ping")))
unfolding sanitize_loop sanitize_round
sanitize_loop-blocked codec peer client_id c doc docs h stays =
    rw (ping-blocked codec peer client_id c h stays, sanitize_round, sanitize_loop)

-- `RequestTerminateAndDisconnect` against a server that acknowledges once and then hangs up fails
-- on its second read, so the connection is not closed.
pub request_terminate_and_disconnect_fails :
    (codec : Codec) (peer : Peer) (client_id : Bytes) (c : Client)
    → AnswersOnce codec peer c (control_line codec peer client_id c (codes "quit"))
    → peer.hangs_up (c.sent ++ control_line codec peer client_id c (codes "quit") ∷ []) ≡ true
    → request_terminate_and_disconnect codec peer client_id c
      ≡ (err unknown_internal_error, told c (control_line codec peer client_id c (codes "quit")))
unfolding request_terminate_and_disconnect
request_terminate_and_disconnect_fails codec peer client_id c h left =
    simp (h.connected, h.curr_conn, h.writable, h.once, h.nothing_pending, h.decodes, left)

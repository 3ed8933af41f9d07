-- ===== src/Rpc/Client/Sending.antt =====
-- Theorems on connecting, sending a document and closing in gocode/sanitizer_ole/rpc_client.go.
use cramc.Prelude.{◌≡◌, true, false, Option, some, [], arith, Bytes, codes}
use cramc.Prelude.Outcome.{GoError, Outcome, ok, err}
use cramc.Common.{IpcSingleDocToBeSanitized}
use cramc.Rpc.Codec.{Codec}
use cramc.Rpc.Client.Monad.{Client}
use cramc.Rpc.Client.Waiting.{AnswersOnce, told}
use cramc.Rpc.Client.{
  Peer, send_sanitize_message, conn_close, connect, disconnect, request_terminate_and_disconnect,
  proc_resp_data, send_control_message,
}

abbrev document_line : Codec → Peer → Bytes → Client → IpcSingleDocToBeSanitized → Bytes
document_line codec peer client_id c doc = codec.marshal_request (record {
  client_id = client_id;
  message_id = peer.clock c.sent;
  msg_type = codes "sanitize";
  msg_data = codec.marshal_doc doc;
})

-- `SendSanitizeMessage` by itself is in step with a server that answers once: it returns the id
-- of its message and leaves nothing unread.
send_sanitize_message_once :
    (codec : Codec) (peer : Peer) (client_id : Bytes) (c : Client) (doc : IpcSingleDocToBeSanitized)
    → AnswersOnce codec peer c (document_line codec peer client_id c doc)
    → send_sanitize_message codec peer client_id doc c
      ≡ (ok (peer.clock c.sent), told c (document_line codec peer client_id c doc))
unfolding send_sanitize_message
send_sanitize_message_once codec peer client_id c doc h =
    simp (h.connected, h.curr_conn, h.writable, h.once, h.nothing_pending, h.decodes)

-- What a step of the client leaves of its connection.
abbrev pub Keeps : {A : Type 0} → Client → Outcome A × Client → Type 0
Keeps c (r, c') = (c'.connected ≡ c.connected) × (c'.curr_conn ≡ c.curr_conn)

-- Nothing closes a connection: whatever the server does, behind `ConnClose`, `Disconnect` and
-- `RequestTerminateAndDisconnect` the client counts as connected exactly if it did before, and has
-- a connection exactly if it had one.
disconnect-Keeps :
    (codec : Codec) (peer : Peer) (client_id : Bytes) (c : Client)
    → Keeps c (conn_close codec peer client_id c)
      × Keeps c (disconnect codec peer client_id c)
      × Keeps c (request_terminate_and_disconnect codec peer client_id c)
unfolding disconnect request_terminate_and_disconnect send_control_message proc_resp_data conn_close
disconnect-Keeps codec peer client_id c = (ground arith, ground arith, ground arith)

abbrev pub attempted : Option GoError → Option GoError → Option GoError → Outcome (Unit {0})
attempted (some d) (some e) (some f) = err f
attempted _ _ _ = ok tt

abbrev pub dialled_or_not : Outcome (Unit {0}) → Client → Client
dialled_or_not (ok u) c = record c { connected = true; curr_conn = true; pending = [] }
dialled_or_not _ c = record c { connected = false }

-- `Connect` dials up to three times: it succeeds exactly if one of the three attempts does, and
-- then the client is connected with nothing unread; else it returns the error of the third, and
-- the client counts as disconnected.
pub connect-attempts :
    (codec : Codec) (peer : Peer) (client_id : Bytes) (c : Client)
    → let r = attempted (peer.dial 0) (peer.dial 1) (peer.dial 2) in
      connect codec peer client_id c ≡ (r, dialled_or_not r c)
unfolding connect
connect-attempts codec peer client_id c = ground arith

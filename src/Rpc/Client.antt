-- ===== src/Rpc/Client.antt =====
-- gocode/sanitizer_ole/rpc_client.go, and the loop of `StartSanitizer` in entrypoint_windows.go.
-- The client keeps its flags, the lines it has sent and the lines of the server that it has not
-- read yet. The other end of the pipe is a parameter: the lines with which it responds to a line,
-- and whether it has hung up after what was sent. A read with no line there waits, or ends the
-- scan if the server has hung up. Logs are left out.
pub mod Monad
pub mod Waiting
pub mod Sending
use cramc.Prelude.{
  ℕ, zero, suc, ◌+◌, Bool, true, false, not, ◌||◌, Option, none, some, List, [], ◌∷◌, ◌++◌,
  if◌then◌else◌, Bytes, codes, text_eq,
}
use cramc.Prelude.Outcome.{
  GoError, Outcome, ok, err, panic, blocked, rpc_connection_not_established,
  rpc_response_unexpected, unknown_internal_error,
}
use cramc.Common.{IpcReqMessageBase, IpcServerControl, IpcSingleDocToBeSanitized, IpcMessageResp}
use cramc.Rpc.Codec.{Codec}
use cramc.Rpc.Client.Monad.{Client, M, ◌>>=◌, ◌>>◌, return, raise, get, modify}

pub record Peer : Type 0 where
  pub respond : Bytes → List Bytes
  pub hangs_up : List Bytes → Bool
  pub write_error : Option GoError
  pub clock : List Bytes → ℕ
  -- the outcome of the n-th `winio.DialPipe`
  pub dial : ℕ → Option GoError

abbrev raise_error : Option GoError → M (Unit {0})
raise_error none = return tt
raise_error (some e) = raise e

abbrev pub ignored : Outcome (Unit {0}) × Client → Outcome (Unit {0}) × Client
ignored (ok u, s) = (ok tt, s)
ignored (err e, s) = (ok tt, s)
ignored (panic, s) = (panic, s)
ignored (blocked, s) = (blocked, s)

module _ (codec : Codec) (peer : Peer) (client_id : Bytes) where
  abbrev dialled : Client → Client
  dialled c = record c { connected = true; curr_conn = true; pending = [] }

  -- The attempts from number `i` on, `left` of them; `last` is the last error.
  unfoldable pub attempts : ℕ → ℕ → Option GoError → M (Unit {0})
  attempts zero i last = raise_error last
  attempts (suc left) i last =
      let again = attempts left (i + 1) (peer.dial i) in
      elim (peer.dial i) [ none ↦ modify dialled | some e ↦ again ]

  -- `Connect`
  unfoldable pub connect : M (Unit {0})
  unfolding attempts
  connect = do modify (λ c. record c { connected = false }); attempts 3 0 none

  -- `c.currConn.Write` of a message and the newline that ends its line, which is left out here; a
  -- nil connection is dereferenced.
  unfoldable pub write_line : Bytes → M (Unit {0})
  write_line line = do
    c ← get
    if not c.curr_conn
        then (λ s. (panic, s))
        else (raise_error peer.write_error
            >> modify (λ s. record s {
              sent = s.sent ++ line ∷ [];
              pending = s.pending ++ peer.respond line;
            }))

  abbrev scanned : List Bytes → M IpcMessageResp
  scanned [] s = (if peer.hangs_up s.sent then err unknown_internal_error else blocked, s)
  scanned (line ∷ lines) s = (codec.unmarshal_resp line, record s { pending = lines })

  -- `procRespData`
  unfoldable pub proc_resp_data : M IpcMessageResp
  proc_resp_data = do
    c ← get
    if not c.connected then raise rpc_connection_not_established else scanned c.pending

  -- `prepareMessageSkeleton`, with the type and the data filled in.
  unfoldable pub request : ℕ → Bytes → Bytes → IpcReqMessageBase
  request now type data' = record {
    client_id = client_id;
    message_id = now;
    msg_type = type;
    msg_data = data';
  }

  -- The common part of the two senders: one line is written and one is read.
  abbrev exchange : Bytes → Bytes → M ℕ
  exchange type data' = do
    c ← get
    write_line (codec.marshal_request (request (peer.clock c.sent) type data'))
    resp ← proc_resp_data
    return (peer.clock c.sent)

  -- `SendControlMessage`
  unfoldable pub send_control_message : Bytes → M ℕ
  unfolding write_line proc_resp_data request
  send_control_message action = do
    c ← get
    if not c.connected
        then raise rpc_connection_not_established
        else exchange (codes "control") (codec.marshal_control (record { control_action = action }))

  -- `SendSanitizeMessage`
  unfoldable pub send_sanitize_message : IpcSingleDocToBeSanitized → M ℕ
  unfolding write_line proc_resp_data request
  send_sanitize_message doc = do
    c ← get
    if not c.connected
        then raise rpc_connection_not_established
        else exchange (codes "sanitize") (codec.marshal_doc doc)

  -- `ConnClose`: the guard as it is written; a nil connection is dereferenced.
  unfoldable pub conn_close : M (Unit {0})
  conn_close = do
    c ← get
    if c.curr_conn || c.connected
        then raise rpc_connection_not_established
        else if not c.curr_conn
        then (λ s. (panic, s))
        else modify (λ s. record s { connected = false; curr_conn = false; pending = [] })

  -- `Ping`
  unfoldable pub ping : M (Unit {0})
  unfolding send_control_message proc_resp_data
  ping = do
    c ← get
    if not c.curr_conn || not c.connected then raise rpc_connection_not_established else do
      id ← send_control_message (codes "ping")
      resp ← proc_resp_data
      if text_eq resp.additional_msg (codes "pong")
          then return tt
          else raise rpc_response_unexpected

  -- The value of `_ = c.ConnClose()` is dropped.
  abbrev dropped : M (Unit {0}) → M (Unit {0})
  dropped m s = ignored (m s)

  -- `Disconnect`
  unfoldable pub disconnect : M (Unit {0})
  unfolding send_control_message proc_resp_data conn_close
  disconnect = do
    id ← send_control_message (codes "disconn")
    resp ← proc_resp_data
    dropped conn_close

  -- `RequestTerminateAndDisconnect`
  unfoldable pub request_terminate_and_disconnect : M (Unit {0})
  unfolding send_control_message proc_resp_data conn_close
  request_terminate_and_disconnect = do
    c ← get
    if not c.connected
        then raise rpc_connection_not_established
        else do id ← send_control_message (codes "quit"); resp ← proc_resp_data; dropped conn_close

  -- One round of the loop of `StartSanitizer`: an error skips the document.
  unfoldable pub sanitize_round : IpcSingleDocToBeSanitized → M (Unit {0})
  sanitize_round doc = dropped (ping >> (send_sanitize_message doc >>= λ id. return tt))

  unfoldable pub sanitize_loop : List IpcSingleDocToBeSanitized → M (Unit {0})
  sanitize_loop [] = return tt
  sanitize_loop (doc ∷ docs) = sanitize_round doc >>= λ u. sanitize_loop docs

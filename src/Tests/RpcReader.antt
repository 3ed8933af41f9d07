-- ===== src/Tests/RpcReader.antt =====
-- A connection on which one blank line comes.
use cramc.Prelude.{
  ◌≡◌, refl, ◌⊎◌, map, true, false, none, some, List, [], ◌∷◌, ◌++◌, arith, Bytes, codes, text_eq,
}
use cramc.Prelude.Outcome.{ok, insufficient_privilege}
use cramc.Rpc.Codec.{trim_space}
use cramc.Rpc.Server.{handle_line, handle_rpc_connection}
use cramc.Rpc.Reader.{
  Conn, after_line, read, close_chan, take_line, take_end, Reach, here, next, accepted,
}
use cramc.Rpc.Reader.Order.{connection_served}
use cramc.Rpc.Reader.Lost.{lines_lost}
use cramc.Rpc.Server.Queued.{Request, IsRequest, task_for}
use cramc.Rpc.Reader.Delivered.{lines_of, documents_queued}
use cramc.Tests.Codec.{braces, braces-IsCodec}
use cramc.Tests.Rpc.{env, server, doc, sanitize_request}

abbrev lines : List Bytes
lines = codes " " ∷ []

abbrev ended : Conn
ended = record (accepted [] (server false)) { msg_chan_closed = true; result = some (ok tt) }

blank : handle_line braces env (codes " ") (server false) ≡ (ok none, server false)
unfolding handle_line trim_space text_eq
blank = refl

passed_over :
    accepted [] (server false)
    ≡ after_line (handle_line braces env (codes " ") (server false)) (accepted [] (server false))
passed_over = rw blank

ended-Reach : Reach braces env none (accepted lines (server false)) ended
ended-Reach =
    next
      (next
        (next (next here (read (codes " ") [] refl (omega arith) refl))
          (take_line (codes " ") [] refl refl passed_over))
        (close_chan refl refl refl))
      (take_end refl refl refl refl)

connection_served_example :
    handle_rpc_connection braces env lines (server false) ≡ (ok tt, ended.server)
connection_served_example =
    connection_served braces env none lines (server false) (ok tt) refl ended-Reach refl refl

lines_lost_example :
    (c : Conn) × Reach braces env (some insufficient_privilege) (accepted lines (server false)) c
    × (c.result ≡ some (ok tt))
    × (c.server ≡ server false)
lines_lost_example = lines_lost braces env insufficient_privilege lines (server false) (omega arith)

abbrev document : Request
document = record {
  line = braces.marshal_request sanitize_request;
  msg = sanitize_request;
  doc = doc;
  path = codes "C:/a.xls";
}

document-IsRequest : IsRequest braces env document
unfolding text_eq
document-IsRequest = record {
  not_blank =
      rw (braces-IsCodec.request_trimmed sanitize_request)
        (braces-IsCodec.request_object sanitize_request);
  decodes =
      rw (braces-IsCodec.request_trimmed sanitize_request)
        (braces-IsCodec.request_back sanitize_request (omega arith) (omega arith));
  has_client = refl;
  no_control = refl;
  to_sanitize = refl;
  doc_decodes = braces-IsCodec.doc_back doc (omega arith) (omega arith) (omega arith) (omega arith);
  resolves = refl;
}

abbrev handled : Conn
handled =
    after_line (handle_line braces env document.line (server false)) (accepted [] (server false))

handled-Reach : Reach braces env none (accepted (lines_of (document ∷ [])) (server false)) handled
handled-Reach =
    next (next here (read document.line [] refl (omega arith) refl))
      (take_line document.line [] refl refl refl)

documents_queued_example :
    (before after : List Request) × (document ∷ [] ≡ before ++ after)
    × (handled.server.tasks ≡ [] ++ map task_for before)
    × ((after ≡ []) ⊎ (handled.result ≡ none) ⊎ (handled.interrupted ≡ true))
documents_queued_example =
    documents_queued braces env refl none (document ∷ []) (server false)
      (record { worker = refl; not_quitting = refl }) (document-IsRequest, tt) handled-Reach

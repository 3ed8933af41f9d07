-- ===== src/Tests/Rpc.antt =====
-- A server with a worker, on a connection that works.
use cramc.Prelude.{◌≡◌, refl, Bool, true, false, none, some, [], ◌++◌, arith, codes, text_eq}
use cramc.Prelude.Outcome.{ok, insufficient_privilege}
use cramc.Common.{IpcReqMessageBase, IpcSingleDocToBeSanitized}
use cramc.Rpc.Codec.{IsAscii}
use cramc.Rpc.Server.{Server, Env, handle_message}
use cramc.Rpc.Server.Replies.{answers_to, lines_of, handle_message_answers}
use cramc.Rpc.Server.Effects.{IsAccepted}
use cramc.Tests.Codec.{braces}

abbrev pub env : Env
env = record {
  write_error = none;
  abs = λ p. ok (codes "C:/" ++ p);
  gz_bak_file = λ p. some insufficient_privilege;
}

abbrev pub server : Bool → Server
server closed = record {
  e_worker_set = true;
  quit_closed = closed;
  quit_sends = 0;
  written = [];
  backed_up = [];
  tasks = [];
}

abbrev pub doc : IpcSingleDocToBeSanitized
doc = record {
  path = codes "a.xls";
  action = codes "remediate";
  detection_name = codes "Laroux";
  dest_module = codes "laroux";
}

abbrev pub sanitize_request : IpcReqMessageBase
sanitize_request = record {
  client_id = codes "me";
  message_id = 7;
  msg_type = codes "sanitize";
  msg_data = braces.marshal_doc doc;
}

handle_message_answers_example :
    (handle_message braces env sanitize_request (server false)).1.written
    ≡ []
      ++ lines_of braces env sanitize_request
          (answers_to braces env sanitize_request (server false))
handle_message_answers_example =
    handle_message_answers braces env sanitize_request (server false) refl

sanitize_request-IsAccepted :
    IsAccepted braces env sanitize_request (server false) doc (codes "C:/a.xls")
unfolding text_eq
sanitize_request-IsAccepted = (refl, refl, refl, refl, refl)

pub me-IsAscii : IsAscii (codes "me")
me-IsAscii = ground arith

-- ===== src/Rpc/Codec.antt =====
-- `encoding/json` as gocode/sanitizer_ole uses it: what the code relies on is that decoding an
-- object gives back what was encoded, for strings that are ASCII (others may be invalid UTF-8,
-- which the encoder replaces), and that an encoded object begins and ends with no white space.
use mathlib.Core.List.{reverse}
use cramc.Prelude.{
  ℕ, ◌<◌, ◌≡◌, Bool, false, ◌&&◌, ◌||◌, [], ◌∷◌, leb, ◌==◌, if◌then◌else◌, All, Bytes, text_eq,
}
use cramc.Prelude.Outcome.{Outcome, ok}
use cramc.Common.{IpcReqMessageBase, IpcServerControl, IpcSingleDocToBeSanitized, IpcMessageResp}

pub record Codec : Type 0 where
  pub marshal_request : IpcReqMessageBase → Bytes
  pub unmarshal_request : Bytes → Outcome IpcReqMessageBase
  pub marshal_control : IpcServerControl → Bytes
  pub unmarshal_control : Bytes → Outcome IpcServerControl
  pub marshal_doc : IpcSingleDocToBeSanitized → Bytes
  pub unmarshal_doc : Bytes → Outcome IpcSingleDocToBeSanitized
  pub marshal_resp : IpcMessageResp → Bytes
  pub unmarshal_resp : Bytes → Outcome IpcMessageResp

abbrev pub IsAscii : Bytes → Type 0
IsAscii = All (λ c. c < 128)

-- White space of ASCII.
unfoldable pub is_space : ℕ → Bool
is_space c = c == b' ' || (leb 9 c && leb c 13)

unfoldable pub trim_left : Bytes → Bytes
unfolding is_space
trim_left [] = []
trim_left (c ∷ s) = if is_space c then trim_left s else c ∷ s

-- `strings.TrimSpace`, as far as ASCII goes.
unfoldable pub trim_space : Bytes → Bytes
unfolding trim_left
trim_space s = reverse (trim_left (reverse (trim_left s)))

pub record IsCodec (c : Codec) : Type 0 where
  pub request_back :
      (m : IpcReqMessageBase)
      → IsAscii m.client_id
      → IsAscii m.msg_type
      → c.unmarshal_request (c.marshal_request m) ≡ ok m
  pub request_trimmed :
      (m : IpcReqMessageBase) → trim_space (c.marshal_request m) ≡ c.marshal_request m
  pub request_object : (m : IpcReqMessageBase) → text_eq (c.marshal_request m) [] ≡ false
  pub control_back :
      (m : IpcServerControl)
      → IsAscii m.control_action
      → c.unmarshal_control (c.marshal_control m) ≡ ok m
  pub doc_back :
      (m : IpcSingleDocToBeSanitized)
      → IsAscii m.path
      → IsAscii m.action
      → IsAscii m.detection_name
      → IsAscii m.dest_module
      → c.unmarshal_doc (c.marshal_doc m) ≡ ok m
  pub resp_back :
      (m : IpcMessageResp)
      → IsAscii m.client_id
      → IsAscii m.additional_msg
      → c.unmarshal_resp (c.marshal_resp m) ≡ ok m

-- ===== src/Rpc/Server/Connection.antt =====
-- Theorems on `handleRPCConnection` (gocode/sanitizer_ole/rpc_server.go): lines that are no
-- requests, and requests with their answers.
use cramc.Prelude.{
  ℕ, ◌≡◌, refl, ◌∙◌, ◌≢◌, ◌⊎◌, inl, inr, Bool, true, false, none, List, [], ◌∷◌, ◌++◌, arith,
  if◌then◌else◌, Bool-cases, Bytes, codes, text_eq, text_eq_refl, text_ne,
}
use cramc.Prelude.Outcome.{Outcome, ok, err, panic, blocked}
use cramc.Common.{IpcReqMessageBase, IpcMessageResp}
use cramc.Rpc.Codec.{Codec, IsCodec, IsAscii, trim_space}
use cramc.Rpc.Server.Replies.{control_answer, handle_message_answers}
use cramc.Rpc.Server.{
  Server, Env, Handled, handle_message, handle_request, handle_line, handle_rpc_connection, go_on,
  handle_control, build_server_resp_in_bytes,
}

abbrev pub IsAnonymous : Outcome IpcReqMessageBase → Type 0
IsAnonymous (ok msg) = msg.client_id ≡ []
IsAnonymous (err e) = Unit
IsAnonymous panic = ⊥
IsAnonymous blocked = ⊥

-- A blank line, or one that is no request or names no client.
abbrev pub IsNoise : Codec → Bytes → Type 0
IsNoise codec line =
    (trim_space line ≡ []) ⊎ IsAnonymous (codec.unmarshal_request (trim_space line))

either_way : {A : Type 0} {x : A} (b : Bool) → (if b then x else x) ≡ x
either_way true = refl
either_way false = refl

module _ (codec : Codec) (env : Env) where
  handle_request_anonymous :
      (r : Outcome IpcReqMessageBase) (s : Server)
      → IsAnonymous r
      → handle_request codec env r s ≡ (ok none, s)
  unfolding handle_request
  handle_request_anonymous (ok msg) s h = rw (h, text_eq_refl [])
  handle_request_anonymous (err e) s h = refl
  handle_request_anonymous panic s h = absurd h
  handle_request_anonymous blocked s h = absurd h

  handle_line_noise :
      (line : Bytes) (s : Server) → IsNoise codec line → handle_line codec env line s ≡ (ok none, s)
  unfolding handle_line
  handle_line_noise line s (inl e) = rw (e, text_eq_refl [])
  handle_line_noise line s (inr a) =
      rw (handle_request_anonymous (codec.unmarshal_request (trim_space line)) s a)
        (either_way (text_eq (trim_space line) []))

  go_on_cong :
      (r : Handled) (f g : Server → Outcome (Unit {0}) × Server)
      → ((t : Server) → t.quit_closed ≡ false → f t ≡ g t)
      → go_on codec env r f ≡ go_on codec env r g
  go_on_cong (ok e, t) f g h = elim (Bool-cases t.quit_closed) [
    | inl c ↦ rw c
    | inr o ↦ simp o (h t o)
  ]
  go_on_cong (err e, t) f g h = refl
  go_on_cong (panic, t) f g h = refl
  go_on_cong (blocked, t) f g h = refl

  skip_noise :
      (line : Bytes) (lines : List Bytes) (s : Server)
      → IsNoise codec line
      → s.quit_closed ≡ false
      → handle_rpc_connection codec env (line ∷ lines) s ≡ handle_rpc_connection codec env lines s
  unfolding handle_rpc_connection
  skip_noise line lines s h q = rw (handle_line_noise line s h, handle_rpc_connection) (rw q)

-- Noise anywhere on a connection changes nothing of what the server does with the other lines.
handle_rpc_connection_noise :
    (codec : Codec) (env : Env) (before after : List Bytes) (line : Bytes) (s : Server)
    → IsNoise codec line
    → s.quit_closed ≡ false
    → handle_rpc_connection codec env (before ++ line ∷ after) s
      ≡ handle_rpc_connection codec env (before ++ after) s
unfolding handle_rpc_connection
handle_rpc_connection_noise codec env [] after line s h q = skip_noise codec env line after s h q
handle_rpc_connection_noise codec env (l ∷ before) after line s h q =
    go_on_cong codec env (handle_line codec env l s) _ _
      (λ t o. handle_rpc_connection_noise codec env before after line t h o)

-- The request that a client makes of a control action.
abbrev pub control_request : Codec → Bytes → ℕ → Bytes → IpcReqMessageBase
control_request codec client_id message_id action = record {
  client_id = client_id;
  message_id = message_id;
  msg_type = codes "control";
  msg_data = codec.marshal_control (record { control_action = action });
}

abbrev pub control_resp : Bytes → ℕ → Bytes → IpcMessageResp
control_resp client_id message_id action = record {
  client_id = client_id;
  message_id = message_id;
  result_code = (control_answer action).0;
  additional_msg = (control_answer action).1;
}

module _ (codec : Codec) (laws : IsCodec codec) (env : Env) where
  handle_line-request :
      (m : IpcReqMessageBase) (s : Server)
      → IsAscii m.client_id
      → IsAscii m.msg_type
      → text_eq m.client_id [] ≡ false
      → handle_line codec env (codec.marshal_request m) s ≡ handle_message codec env m s
  unfolding handle_line handle_request
  handle_line-request m s c t n =
      rw (laws.request_trimmed m, laws.request_object m) (rw (laws.request_back m c t) (rw n))

  -- The line of a control request, to its handler.
  pub handle_line-control :
      (client_id : Bytes) (message_id : ℕ) (action : Bytes) (s : Server)
      → IsAscii client_id
      → client_id ≢ []
      → IsAscii action
      → let m = control_request codec client_id message_id action in
        handle_line codec env (codec.marshal_request m) s
        ≡ handle_control codec env m (ok (record { control_action = action })) s
  unfolding handle_message
  handle_line-control client_id message_id action s c ne a =
      handle_line-request (control_request codec client_id message_id action) s c (omega arith)
        (text_ne client_id [] ne)
      ∙ rw (text_eq_refl (codes "control"))
          (rw (laws.control_back (record { control_action = action }) a))

control_answer-IsAscii : (action : Bytes) → IsAscii (control_answer action).1
control_answer-IsAscii action = ground arith

-- A control request that a client with an ASCII id sends over a working connection is answered by
-- one line, and what the client decodes from that line carries its own id, the id of its message,
-- and the code and text of the protocol.
pub control_round_trip :
    (codec : Codec) (env : Env) (client_id : Bytes) (message_id : ℕ) (action : Bytes) (s : Server)
    → IsCodec codec
    → env.write_error ≡ none
    → IsAscii client_id
    → client_id ≢ []
    → IsAscii action
    → (answer : Bytes) × ((handle_line codec env
          (codec.marshal_request (control_request codec client_id message_id action))
          s).1.written
        ≡ s.written ++ (answer ++ b'\n' ∷ []) ∷ [])
      × (codec.unmarshal_resp answer ≡ ok (control_resp client_id message_id action))
unfolding build_server_resp_in_bytes
control_round_trip codec env client_id message_id action s laws w ascii ne a =
    let m = control_request codec client_id message_id action in
    (
      codec.marshal_resp (control_resp client_id message_id action),
      rw (handle_line-request codec laws env m s ascii (omega arith) (text_ne client_id [] ne)) (
          handle_message_answers codec env m s w
          ∙ rw (text_eq_refl (codes "control"))
              (rw (laws.control_back (record { control_action = action }) a))),
      laws.resp_back (control_resp client_id message_id action) ascii
          (control_answer-IsAscii action),
    )

-- ===== src/Sanitizer.antt =====
-- gocode/sanitizer_ole/entrypoint_windows.go: `StartSanitizer` as a whole. Logs, the
-- telemetry, the pauses and the timer that only warns are left out; what the killing of Excel's
-- processes returns is dropped by the code.
pub mod Early
pub mod Served
use cramc.Prelude.{
  ℕ, zero, suc, ◌+◌, ◌-◌, ◌*◌, ◌/◌, ◌%◌, ◌^◌, ◌≤◌, ◌<◌, String, ◌≡◌, refl, sym, ap, ◌∙◌, ◌≢◌, ◌↔◌,
  ◌⊎◌, inl, inr, Bool, true, false, not, ◌&&◌, ◌||◌, Option, none, some, List, [], ◌∷◌, ◌++◌, map,
  append-nil, append_assoc, arith, ltb, leb, ◌==◌, if◌then◌else◌, Bool-cases, Option-cases, length,
  take, drop, replicate, any, All, length-append, length-drop, take-append, drop-append, length-map,
  get_elem?, set, erase_at, get_elem?-append, set-append, erase_at-append, get_elem?-length, Bytes,
  codes, text_eq, text_eq_iff, text_eq_refl, text_eq-append, text_ne,
}
use cramc.Prelude.Outcome.{Outcome, ok, err, panic, blocked}
use cramc.Platform.Spawn.{SpawnEnv, helper_started}
use cramc.Common.{IpcSingleDocToBeSanitized}
use cramc.Rpc.Codec.{Codec}
use cramc.Rpc.Client.Monad.{Client, M, ◌>>=◌, ◌>>◌, return}
use cramc.Rpc.Client.{Peer, connect, sanitize_loop, request_terminate_and_disconnect}

-- `NewRPCClient`
abbrev pub new_rpc_client : Client
new_rpc_client = record { connected = false; curr_conn = false; pending = []; sent = [] }

abbrev pub lift : {A : Type 0} → Outcome A → M A
lift o c = (o, c)

module _ (codec : Codec) (peer : Peer) (env : SpawnEnv) where
  -- An error of `RequestTerminateAndDisconnect` is only logged.
  abbrev pub terminated : Outcome (Unit {0}) × Client → Outcome (Unit {0}) × Client
  terminated (ok u, c) = (ok tt, c)
  terminated (err e, c) = (ok tt, c)
  terminated (panic, c) = (panic, c)
  terminated (blocked, c) = (blocked, c)

  -- `rpcProc.Wait()`
  abbrev pub awaited : M (Unit {0})
  awaited c = (if env.helper_leaves c.sent then ok tt else blocked, c)

  abbrev pub terminating : Bytes → M (Unit {0})
  terminating client_id c = terminated (request_terminate_and_disconnect codec peer client_id c)

  -- From the client on.
  unfoldable pub sanitizer_session : Bytes → List IpcSingleDocToBeSanitized → M (Unit {0})
  sanitizer_session client_id docs = do
    connect codec peer client_id
    sanitize_loop codec peer client_id docs
    terminating client_id
    awaited

  -- `StartSanitizer`; `docs` is what comes on the queue until it is closed.
  unfoldable pub start_sanitizer : List IpcSingleDocToBeSanitized → Outcome (Unit {0}) × Client
  unfolding sanitizer_session helper_started
  start_sanitizer docs =
      (do
        client_id ← lift env.new_uuid
        lift (helper_started env)
        sanitizer_session client_id docs)
        new_rpc_client

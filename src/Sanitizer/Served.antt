-- ===== src/Sanitizer/Served.antt =====
-- `StartSanitizer` (gocode/sanitizer_ole/entrypoint_windows.go) with the server of rpc_server.go
-- at the other end of the pipe.
use cramc.Prelude.{
  ℕ, ◌≡◌, refl, ◌∙◌, ◌≢◌, true, false, Option, none, List, [], ◌∷◌, any, Bytes, codes,
}
use cramc.Prelude.Outcome.{GoError, ok, blocked}
use cramc.Common.{IpcSingleDocToBeSanitized}
use cramc.Platform.Spawn.{SpawnEnv, helper_started}
use cramc.Rpc.Codec.{Codec, IsCodec, IsAscii}
use cramc.Rpc.Server.{Server, Env}
use cramc.Rpc.Client.Monad.{Client}
use cramc.Rpc.Client.{Peer, connect, sanitize_loop}
use cramc.Rpc.Client.Waiting.{control_line, told}
use cramc.Rpc.Client.Sending.{connect-attempts}
use cramc.Rpc.EndToEnd.{
  served, closes_quit, IsConnected, sanitize_loop-served, request_terminate_and_disconnect-served,
}
use cramc.Sanitizer.{new_rpc_client, sanitizer_session, start_sanitizer}

-- The client behind `Connect`.
abbrev pub connected_client : Client
connected_client = record { connected = true; curr_conn = true; pending = []; sent = [] }

connected_client-IsConnected : IsConnected connected_client
connected_client-IsConnected = record {
  connected = refl;
  curr_conn = refl;
  nothing_sent = refl;
  nothing_pending = refl;
}

module _ (codec : Codec) (env : Env) (s : Server) (clock : List Bytes → ℕ)
    (dial : ℕ → Option GoError) (spawn : SpawnEnv) (client_id : Bytes) (laws : IsCodec codec)
    (writes : env.write_error ≡ none) (ascii : IsAscii client_id) (named : client_id ≢ [])
    (open_quit : s.quit_closed ≡ false) (dials : dial 0 ≡ none) (id : spawn.new_uuid ≡ ok client_id)
    (helper : helper_started spawn ≡ ok tt)
    (leaves : (sent : List Bytes)
      → spawn.helper_leaves sent ≡ any (closes_quit codec env s) sent) where
  abbrev peer : Peer
  peer = served codec env s clock dial

  connected : connect codec peer client_id new_rpc_client ≡ (ok tt, connected_client)
  connected = connect-attempts codec peer client_id new_rpc_client ∙ rw dials refl

  start_sanitizer_waits :
      (doc : IpcSingleDocToBeSanitized) (docs : List IpcSingleDocToBeSanitized)
      → start_sanitizer codec peer spawn (doc ∷ docs) ≡ (
        blocked,
        told connected_client (control_line codec peer client_id connected_client (codes "ping")),
      )
  unfolding start_sanitizer sanitizer_session
  start_sanitizer_waits doc docs = rw id (
      rw helper (
        rw connected (
          rw (
            sanitize_loop-served codec env s clock dial client_id connected_client doc docs laws
              writes ascii named connected_client-IsConnected open_quit))))

  start_sanitizer_ends : start_sanitizer codec peer spawn [] ≡ (
    ok tt,
    told connected_client (control_line codec peer client_id connected_client (codes "quit")),
  )
  unfolding start_sanitizer sanitizer_session sanitize_loop
  start_sanitizer_ends =
      let (closes, fails) =
        request_terminate_and_disconnect-served codec env s clock dial client_id connected_client
          laws writes ascii named connected_client-IsConnected open_quit in
      rw id (
        rw helper (
          rw connected (
            rw fails (
              rw (leaves (control_line codec peer client_id connected_client (codes "quit") ∷ []))
                (rw closes)))))

-- The sanitizer of the agent with the helper's server, once the helper runs and the first attempt
-- connects: with nothing to clean it ends well, the server told to quit and the helper gone; with
-- a document in the queue it waits for ever behind its first ping, whatever the queue holds, so the
-- helper is not told to quit either.
pub start_sanitizer-served :
    (codec : Codec) (env : Env) (s : Server) (clock : List Bytes → ℕ) (dial : ℕ → Option GoError)
    (spawn : SpawnEnv) (client_id : Bytes) (doc : IpcSingleDocToBeSanitized)
    (docs : List IpcSingleDocToBeSanitized)
    → IsCodec codec
    → env.write_error ≡ none
    → IsAscii client_id
    → client_id ≢ []
    → s.quit_closed ≡ false
    → dial 0 ≡ none
    → spawn.new_uuid ≡ ok client_id
    → helper_started spawn ≡ ok tt
    → ((sent : List Bytes) → spawn.helper_leaves sent ≡ any (closes_quit codec env s) sent)
    → let peer = served codec env s clock dial in
      let c = connected_client in
      (start_sanitizer codec peer spawn []
        ≡ (ok tt, told c (control_line codec peer client_id c (codes "quit"))))
      × (start_sanitizer codec peer spawn (doc ∷ docs)
          ≡ (blocked, told c (control_line codec peer client_id c (codes "ping"))))
start_sanitizer-served codec env s clock dial spawn client_id doc docs laws writes ascii named
      open_quit dials id helper leaves =
    (
      start_sanitizer_ends codec env s clock dial spawn client_id laws writes ascii named open_quit
          dials id helper leaves,
      start_sanitizer_waits codec env s clock dial spawn client_id laws writes ascii named open_quit
          dials id helper leaves doc docs,
    )

-- ===== src/Sanitizer/Early.antt =====
-- Theorems on the errors of `StartSanitizer` (gocode/sanitizer_ole/entrypoint_windows.go).
use cramc.Prelude.{◌≡◌, refl, inl, inr, List, [], ◌∷◌, Bool-cases, Bytes}
use cramc.Prelude.Outcome.{GoError, Outcome, ok, err, panic, blocked}
use cramc.Common.{IpcSingleDocToBeSanitized}
use cramc.Platform.Spawn.{SpawnEnv, helper_started}
use cramc.Rpc.Codec.{Codec}
use cramc.Rpc.Client.Monad.{Client, M, continue, ◌>>=◌, ◌>>◌}
use cramc.Rpc.Client.{
  ignored, Peer, sanitize_round, sanitize_loop, request_terminate_and_disconnect,
}
use cramc.Rpc.Client.Sending.{attempted, dialled_or_not, connect-attempts}
use cramc.Sanitizer.{
  new_rpc_client, lift, terminating, terminated, awaited, sanitizer_session, start_sanitizer,
}

-- Not an error.
abbrev Passes : {A : Type 0} → Outcome A → Type 0
Passes (err e) = ⊥
Passes _ = Unit {0}

continue-Passes :
    {A B : Type 0} (m : Outcome A × Client) (f : A → M B)
    → Passes m.0
    → ((a : A) (s : Client) → Passes (f a s).0)
    → Passes (continue m f).0
continue-Passes (ok a, s) f p q = q a s
continue-Passes (err e, s) f p q = p
continue-Passes (panic, s) f p q = tt
continue-Passes (blocked, s) f p q = tt

ignored-Passes : (r : Outcome (Unit {0}) × Client) → Passes (ignored r).0
ignored-Passes (ok u, s) = tt
ignored-Passes (err e, s) = tt
ignored-Passes (panic, s) = tt
ignored-Passes (blocked, s) = tt

module _ (codec : Codec) (peer : Peer) (client_id : Bytes) where
  sanitize_round-Passes :
      (doc : IpcSingleDocToBeSanitized) (c : Client)
      → Passes (sanitize_round codec peer client_id doc c).0
  unfolding sanitize_round
  sanitize_round-Passes doc c = ignored-Passes _

  sanitize_loop-Passes :
      (docs : List IpcSingleDocToBeSanitized) (c : Client)
      → Passes (sanitize_loop codec peer client_id docs c).0
  unfolding sanitize_loop
  sanitize_loop-Passes [] c = tt
  sanitize_loop-Passes (doc ∷ docs) c =
      continue-Passes (sanitize_round codec peer client_id doc c) _ (sanitize_round-Passes doc c)
        (λ u s. sanitize_loop-Passes docs s)

  terminated-Passes :
      (r : Outcome (Unit {0}) × Client) (env : SpawnEnv) → Passes (terminated codec peer env r).0
  terminated-Passes (ok u, s) env = tt
  terminated-Passes (err e, s) env = tt
  terminated-Passes (panic, s) env = tt
  terminated-Passes (blocked, s) env = tt

  awaited-Passes : (env : SpawnEnv) (s : Client) → Passes (awaited codec peer env s).0
  awaited-Passes env s = elim (Bool-cases (env.helper_leaves s.sent)) [
    | inl t ↦ rw t tt
    | inr f ↦ rw f tt
  ]

-- The first error of what comes before the loop.
abbrev pub first_error :
    Outcome Bytes → Outcome (Unit {0}) → Outcome (Unit {0}) → Outcome (Unit {0})
first_error (ok id) (ok u) connected = connected
first_error (ok id) o connected = o
first_error (err e) o connected = err e
first_error panic o connected = panic
first_error blocked o connected = blocked

module _ (codec : Codec) (peer : Peer) (env : SpawnEnv)
    (docs : List IpcSingleDocToBeSanitized) where
  abbrev dialling : Outcome (Unit {0})
  dialling = attempted (peer.dial 0) (peer.dial 1) (peer.dial 2)

  -- What comes behind the dialling.
  abbrev rest : Bytes → M (Unit {0})
  rest client_id =
      sanitize_loop codec peer client_id docs
      >> (terminating codec peer env client_id >> awaited codec peer env)

  rest-Passes : (client_id : Bytes) (c : Client) → Passes (rest client_id c).0
  rest-Passes client_id c =
      continue-Passes (sanitize_loop codec peer client_id docs c) _
        (sanitize_loop-Passes codec peer client_id docs c)
        (λ u s.
          continue-Passes (terminating codec peer env client_id s) _
            (terminated-Passes codec peer client_id
              (request_terminate_and_disconnect codec peer client_id s) env)
            (λ v t. awaited-Passes codec peer client_id env t))

  Passes-ne : (o : Outcome (Unit {0})) (e : GoError) → Passes o → o ≡ err e → ⊥
  Passes-ne (ok u) e p h = cc
  Passes-ne (err g) e p h = p
  Passes-ne panic e p h = cc
  Passes-ne blocked e p h = cc

  continue_err :
      (client_id : Bytes) (r : Outcome (Unit {0})) (e : GoError)
      → let (o, c) = continue (r, dialled_or_not r new_rpc_client) (λ u. rest client_id) in
        ((o ≡ err e) → (r ≡ err e) × (c.sent ≡ [])) × ((r ≡ err e) → (o ≡ err e))
  continue_err client_id (ok u) e =
      ((λ h. absurd (Passes-ne _ e (rest-Passes client_id _) h)), (λ h. cc))
  continue_err client_id (err g) e = ((λ h. (h, refl)), (λ h. h))
  continue_err client_id panic e = ((λ h. cc), (λ h. cc))
  continue_err client_id blocked e = ((λ h. cc), (λ h. cc))

  session_err :
      (client_id : Bytes) (e : GoError)
      → let (o, c) = sanitizer_session codec peer env client_id docs new_rpc_client in
        ((o ≡ err e) → (dialling ≡ err e) × (c.sent ≡ [])) × ((dialling ≡ err e) → (o ≡ err e))
  unfolding sanitizer_session
  session_err client_id e =
      rw (connect-attempts codec peer client_id new_rpc_client) (continue_err client_id dialling e)

  started_err :
      (id : Outcome Bytes) (helper : Outcome (Unit {0})) (e : GoError)
      → let (o, c) =
          (lift id >>= (λ client_id.
              lift helper >>= λ u. sanitizer_session codec peer env client_id docs))
            new_rpc_client in
        ((o ≡ err e) → (first_error id helper dialling ≡ err e) × (c.sent ≡ []))
        × ((first_error id helper dialling ≡ err e) → (o ≡ err e))
  started_err (ok client_id) (ok u) e = session_err client_id e
  started_err (ok client_id) (err g) e = ((λ h. (h, refl)), (λ h. h))
  started_err (ok client_id) panic e = ((λ h. cc), (λ h. cc))
  started_err (ok client_id) blocked e = ((λ h. cc), (λ h. cc))
  started_err (err g) helper e = ((λ h. (h, refl)), (λ h. h))
  started_err panic helper e = ((λ h. cc), (λ h. cc))
  started_err blocked helper e = ((λ h. cc), (λ h. cc))

-- `StartSanitizer` returns an error exactly if the client id cannot be made, the helper not be
-- started, or none of three attempts connects, with the first such error, so no error of a document
-- or of the termination is returned; and if it returns an error it sent nothing.
pub start_sanitizer_err :
    (codec : Codec) (peer : Peer) (env : SpawnEnv) (docs : List IpcSingleDocToBeSanitized)
    (e : GoError)
    → let (o, c) = start_sanitizer codec peer env docs in
      let before = attempted (peer.dial 0) (peer.dial 1) (peer.dial 2) in
      ((o ≡ err e) → (first_error env.new_uuid (helper_started env) before ≡ err e) × (c.sent ≡ []))
      × ((first_error env.new_uuid (helper_started env) before ≡ err e) → (o ≡ err e))
unfolding start_sanitizer
start_sanitizer_err codec peer env docs e =
    started_err codec peer env docs env.new_uuid (helper_started env) e

-- ===== src/Rpc/Reader/Runs.antt =====
-- `handleRPCConnection` (gocode/sanitizer_ole/rpc_server.go) on lines in two parts.
use cramc.Prelude.{
  ◌≡◌, refl, ap, ◌∙◌, inl, inr, false, List, [], ◌∷◌, ◌++◌, arith, Bool-cases, Bytes,
}
use cramc.Prelude.Outcome.{Outcome, ok, err, panic, blocked}
use cramc.Rpc.Codec.{Codec}
use cramc.Rpc.Server.{Server, Env, Handled, handle_line, go_on, handle_rpc_connection}

module _ (codec : Codec) (env : Env) where
  abbrev pub run : List Bytes → Server → Outcome (Unit {0}) × Server
  run = handle_rpc_connection codec env

  go_on-open :
      (h : Handled) (t : Server) (f g : Server → Outcome (Unit {0}) × Server)
      {v : Outcome (Unit {0}) × Server}
      → t.quit_closed ≡ false
      → go_on codec env h f ≡ (ok tt, t)
      → ((u : Server) → f u ≡ (ok tt, t) → g u ≡ v)
      → go_on codec env h g ≡ v
  go_on-open (ok e, u) t f g q a k = elim (Bool-cases u.quit_closed) [
    | inl c ↦ absurd (ground (arith, a))
    | inr o ↦ simp o (k u (ground (arith, a)))
  ]
  go_on-open (err e, u) t f g q a k = cc
  go_on-open (panic, u) t f g q a k = cc
  go_on-open (blocked, u) t f g q a k = cc

  -- Behind lines that leave `quit` open the loop goes on with the others.
  pub run-append :
      (xs ys : List Bytes) (s t : Server)
      → t.quit_closed ≡ false
      → run xs s ≡ (ok tt, t)
      → run (xs ++ ys) s ≡ run ys t
  unfolding handle_rpc_connection
  run-append [] ys s t q e = ap (λ (r : Outcome (Unit {0}) × Server). run ys r.1) e
  run-append (x ∷ xs) ys s t q e =
      go_on-open (handle_line codec env x s) t _ _ q e (λ u k. run-append xs ys u t q k)

  pub run-nil : (s : Server) → run [] s ≡ (ok tt, s)
  unfolding handle_rpc_connection
  run-nil s = refl

  pub run-next :
      (xs ys : List Bytes) (line : Bytes) (s t : Server) (h : Handled)
      → t.quit_closed ≡ false
      → run xs s ≡ (ok tt, t)
      → handle_line codec env line t ≡ h
      → run (xs ++ line ∷ ys) s ≡ go_on codec env h (λ u. run ys u)
  unfolding handle_rpc_connection
  run-next xs ys line s t h q e k =
      run-append xs (line ∷ ys) s t q e ∙ ap (λ (h : Handled). go_on codec env h (λ u. run ys u)) k

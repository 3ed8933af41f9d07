-- ===== src/Rpc/Reader/Places.antt =====
-- What has become of the lines of a connection while its goroutines run.
use cramc.Prelude.{
  ◌≡◌, refl, sym, ap, ◌∙◌, ◌≢◌, ◌⊎◌, inl, inr, false, none, some, List, [], ◌∷◌, ◌++◌, append_assoc,
  Bool-cases, Bytes,
}
use cramc.Prelude.Outcome.{Outcome, ok, err, panic, blocked}
use cramc.Rpc.Codec.{Codec}
use cramc.Rpc.Server.{Server, Env, Handled, handle_line, go_on}
use cramc.Rpc.Reader.{Conn, after_line}
use cramc.Rpc.Reader.Runs.{run, run-nil, run-next}

module _ (codec : Codec) (env : Env) where
  pub record Looping (lines handled : List Bytes) (s0 : Server) (c : Conn) : Type 0 where
    pub going : c.result ≡ none
    pub undisturbed : c.interrupted ≡ false
    pub left : lines ≡ handled ++ (c.msg_chan ++ c.unread)
    pub so_far : run codec env handled s0 ≡ (ok tt, c.server)
    pub still_open : c.server.quit_closed ≡ false
    pub closed_last : (c.msg_chan_closed ≡ false) ⊎ (c.unread ≡ [])

  pub record Ended (lines handled rest : List Bytes) (s0 : Server) (c : Conn) : Type 0 where
    pub over : c.result ≢ none
    pub left : lines ≡ handled ++ rest
    pub so_far : (run codec env handled s0).1 ≡ c.server
    pub whole :
        (o : Outcome (Unit {0}))
        → c.result ≡ some o
        → c.interrupted ≡ false
        → run codec env lines s0 ≡ (o, c.server)

  abbrev pub InOrder : List Bytes → Server → Conn → Type 0
  InOrder lines s0 c =
      (handled : List Bytes) × (Looping lines handled s0 c
        ⊎ ((rest : List Bytes) × Ended lines handled rest s0 c))

  -- The loop ended as the handler did.
  taken_last :
      (lines handled rest : List Bytes) (line : Bytes) (s0 : Server) (c : Conn) (h : Handled)
      (o : Outcome (Unit {0}))
      → lines ≡ handled ++ line ∷ rest
      → ((ys : List Bytes) → run codec env (handled ++ line ∷ ys) s0 ≡ (o, h.1))
      → c.result ≡ some o
      → c.server ≡ h.1
      → InOrder lines s0 c
  taken_last lines handled rest line s0 c h o l r e f =
      let same_end : (p : Outcome (Unit {0}))
          → c.result ≡ some p
          → ◌≡◌ {A = Outcome (Unit {0}) × Server} (o, h.1) (p, c.server) =
        λ p a. cc in
      (
        handled ++ line ∷ [],
        inr (
          rest,
          record {
            over = λ n. cc;
            left = l ∙ sym (append_assoc handled (line ∷ []) rest);
            so_far = ap (λ (r : Outcome (Unit {0}) × Server). r.1) (r []) ∙ sym f;
            whole =
                λ p a b. ap (λ (ls : List Bytes). run codec env ls s0) l ∙ r rest ∙ same_end p a;
          },
        ),
      )

  pub taken :
      (lines handled more : List Bytes) (line : Bytes) (s0 : Server) (c : Conn) (h : Handled)
      → Looping lines handled s0 c
      → c.msg_chan ≡ line ∷ more
      → handle_line codec env line c.server ≡ h
      → InOrder lines s0 (after_line h (record c { msg_chan = more }))
  taken lines handled more line s0 c h k m e =
      after h (λ ys. run-next codec env handled ys line s0 c.server h k.still_open k.so_far e)
    where
      l : lines ≡ handled ++ line ∷ (more ++ c.unread)
      l = k.left ∙ ap (λ (ls : List Bytes). handled ++ (ls ++ c.unread)) m

      after :
          (h : Handled)
          → ((ys : List Bytes)
              → run codec env (handled ++ line ∷ ys) s0
                ≡ go_on codec env h (λ u. run codec env ys u))
          → InOrder lines s0 (after_line h (record c { msg_chan = more }))
      after (ok e, u) r = elim (Bool-cases u.quit_closed) [
        | inl q ↦
            taken_last lines handled (more ++ c.unread) line s0 _ (ok e, u) (ok tt) l
              (λ ys. r ys ∙ rw q) (rw q) refl
        | inr q ↦ (
          handled ++ line ∷ [],
          inl (record {
            going = rw q;
            undisturbed = k.undisturbed;
            left = l ∙ sym (append_assoc handled (line ∷ []) (more ++ c.unread));
            so_far = r [] ∙ simp q (run-nil codec env u);
            still_open = q;
            closed_last = k.closed_last;
          }),
        )
      ]
      after (err e, u) r =
          taken_last lines handled (more ++ c.unread) line s0 _ (err e, u) (err e) l r refl refl
      after (panic, u) r =
          taken_last lines handled (more ++ c.unread) line s0 _ (panic, u) panic l r refl refl
      after (blocked, u) r =
          taken_last lines handled (more ++ c.unread) line s0 _ (blocked, u) blocked l r refl refl

-- ===== src/Rpc/Reader/Order.antt =====
-- The goroutines of a connection against the handling of its lines one after the other.
use cramc.Prelude.{
  ◌≡◌, refl, sym, ap, ◌∙◌, ◌⊎◌, inl, inr, true, false, Option, some, List, [], ◌∷◌, ◌++◌,
  append-nil, append_assoc, arith, Bytes,
}
use cramc.Prelude.Outcome.{GoError, Outcome, ok}
use cramc.Rpc.Codec.{Codec}
use cramc.Rpc.Server.{Server, Env, handle_line, handle_rpc_connection}
use cramc.Rpc.Reader.{
  Conn, Step, read, read_fails, close_chan, take_line, take_end, take_error, quits, Reach, here,
  next, accepted,
}
use cramc.Rpc.Reader.Runs.{run, run-nil}
use cramc.Rpc.Reader.Places.{Looping, Ended, InOrder, taken}

module _ (codec : Codec) (env : Env) where
  read_all :
      {lines handled : List Bytes} {s0 : Server} {c : Conn}
      → Looping codec env lines handled s0 c
      → c.msg_chan_closed ≡ true
      → c.unread ≡ []
  read_all k o = elim k.closed_last [ inl f ↦ cc | inr u ↦ u ]

  not_read_all :
      (c : Conn) {line : Bytes} {more : List Bytes}
      → c.unread ≡ line ∷ more
      → (c.msg_chan_closed ≡ false) ⊎ (c.unread ≡ [])
      → c.msg_chan_closed ≡ false
  not_read_all c u (inl f) = f
  not_read_all c u (inr n) = cc

  -- The loop ends with lines left that it has not handled.
  interrupted-InOrder :
      {lines handled : List Bytes} {s0 : Server} (c : Conn)
      → Looping codec env lines handled s0 c
      → InOrder codec env lines s0 (record c { result = some (ok tt); interrupted = true })
  interrupted-InOrder {lines} {handled} c k = (
    handled,
    inr (
      c.msg_chan ++ c.unread,
      record {
        over = λ n. cc;
        left = k.left;
        so_far = ap (λ (r : Outcome (Unit {0}) × Server). r.1) k.so_far;
        whole = λ p a b. cc;
      },
    ),
  )

  -- All lines are handled.
  finished-InOrder :
      {lines handled : List Bytes} {s0 : Server} (c : Conn)
      → Looping codec env lines handled s0 c
      → c.msg_chan ≡ []
      → c.unread ≡ []
      → InOrder codec env lines s0 (record c { result = some (ok tt) })
  finished-InOrder {lines} {handled} {s0} c k m u =
      let left : lines ≡ handled ++ [] = k.left ∙ rw m (rw u) in
      let same_end : (p : Outcome (Unit {0}))
          → ◌≡◌ {A = Option (Outcome (Unit {0}))} (some (ok tt)) (some p)
          → ◌≡◌ {A = Outcome (Unit {0}) × Server} (ok tt, c.server) (p, c.server) =
        λ p a. cc in
      (
        handled,
        inr (
          [],
          record {
            over = λ n. cc;
            left = left;
            so_far = ap (λ (r : Outcome (Unit {0}) × Server). r.1) k.so_far;
            whole = λ p a b.
                ap (λ (ls : List Bytes). run codec env ls s0) (left ∙ append-nil handled)
                ∙ k.so_far
                ∙ same_end p a;
          },
        ),
      )

  Looping-step :
      (read_error : Option GoError) {lines handled : List Bytes} {s0 : Server} {c d : Conn}
      → Step codec env read_error c d
      → Looping codec env lines handled s0 c
      → InOrder codec env lines s0 d
  Looping-step f {handled = handled} {c = c} (read line more u n e) k = rw e (
    handled,
    inl (record {
      going = k.going;
      undisturbed = k.undisturbed;
      left =
          k.left
          ∙ ap (λ (ls : List Bytes). handled ++ (c.msg_chan ++ ls)) u
          ∙ ap (◌++◌ handled) (sym (append_assoc c.msg_chan (line ∷ []) more));
      so_far = k.so_far;
      still_open = k.still_open;
      closed_last = inl (not_read_all c u k.closed_last);
    }),
  )
  Looping-step f {handled = handled} (read_fails g u o r e) k = rw e (
    handled,
    inl (record {
      going = k.going;
      undisturbed = k.undisturbed;
      left = k.left;
      so_far = k.so_far;
      still_open = k.still_open;
      closed_last = k.closed_last;
    }),
  )
  Looping-step f {handled = handled} (close_chan u r e) k = rw e (
    handled,
    inl (record {
      going = k.going;
      undisturbed = k.undisturbed;
      left = k.left;
      so_far = k.so_far;
      still_open = k.still_open;
      closed_last = inr u;
    }),
  )
  Looping-step f {lines} {handled} {s0} {c} (take_line line more n m e) k =
      rw e (
        taken codec env lines handled more line s0 c (handle_line codec env line c.server) k m refl)
  Looping-step f {c = c} (take_end n m o e) k = rw e (finished-InOrder c k m (read_all k o))
  Looping-step f {c = c} (take_error g n m e) k = rw e (interrupted-InOrder c k)
  Looping-step f {c = c} (quits n e) k = rw e (interrupted-InOrder c k)

  -- Behind the loop only the reader goes on.
  Ended-step :
      (read_error : Option GoError) {lines handled rest : List Bytes} {s0 : Server} {c d : Conn}
      → Step codec env read_error c d
      → Ended codec env lines handled rest s0 c
      → Ended codec env lines handled rest s0 d
  Ended-step f (read line more u n e) k =
      rw e (record { over = k.over; left = k.left; so_far = k.so_far; whole = k.whole })
  Ended-step f (read_fails g u o r e) k =
      rw e (record { over = k.over; left = k.left; so_far = k.so_far; whole = k.whole })
  Ended-step f (close_chan u r e) k =
      rw e (record { over = k.over; left = k.left; so_far = k.so_far; whole = k.whole })
  Ended-step f (take_line line more n m e) k = absurd (k.over n)
  Ended-step f (take_end n m o e) k = absurd (k.over n)
  Ended-step f (take_error g n m e) k = absurd (k.over n)
  Ended-step f (quits n e) k = absurd (k.over n)

  either_step :
      (read_error : Option GoError) (lines : List Bytes) (s0 : Server) {c d : Conn}
      → Step codec env read_error c d
      → InOrder codec env lines s0 c
      → InOrder codec env lines s0 d
  either_step f lines s0 s (handled, inl k) = Looping-step f s k
  either_step f lines s0 s (handled, inr (rest, k)) = (handled, inr (rest, Ended-step f s k))

  Reach-InOrder :
      (read_error : Option GoError) (lines : List Bytes) (s0 : Server) {c d : Conn}
      → InOrder codec env lines s0 c
      → Reach codec env read_error c d
      → InOrder codec env lines s0 d
  Reach-InOrder f lines s0 k here = k
  Reach-InOrder f lines s0 k (next reached s) =
      either_step f lines s0 s (Reach-InOrder f lines s0 k reached)

  accepted-InOrder :
      (lines : List Bytes) (s0 : Server)
      → s0.quit_closed ≡ false
      → InOrder codec env lines s0 (accepted lines s0)
  accepted-InOrder lines s0 q = (
    [],
    inl (record {
      going = refl;
      undisturbed = refl;
      left = refl;
      so_far = run-nil codec env s0;
      still_open = q;
      closed_last = inl refl;
    }),
  )

  -- Whatever the goroutines do, and however the loop ends, the server is as the lines up to some
  -- place have left it, handled one after the other.
  pub lines_in_order :
      (read_error : Option GoError) (lines : List Bytes) (s0 : Server) {c : Conn}
      → s0.quit_closed ≡ false
      → Reach codec env read_error (accepted lines s0) c
      → (handled rest : List Bytes) × (lines ≡ handled ++ rest)
        × ((handle_rpc_connection codec env handled s0).1 ≡ c.server)
  lines_in_order f lines s0 q reached =
      split (Reach-InOrder f lines s0 (accepted-InOrder lines s0 q) reached)
    where
      split :
          {c : Conn}
          → InOrder codec env lines s0 c
          → (handled rest : List Bytes) × (lines ≡ handled ++ rest)
            × ((run codec env handled s0).1 ≡ c.server)
      split (handled, inl k) =
          (handled, _, k.left, ap (λ (r : Outcome (Unit {0}) × Server). r.1) k.so_far)
      split (handled, inr (rest, k)) = (handled, rest, k.left, k.so_far)

  -- A loop that ended, and neither by an error of the reader nor because another goroutine closed
  -- `quit`, has done what the handling of all the lines one after the other does.
  pub connection_served :
      (read_error : Option GoError) (lines : List Bytes) (s0 : Server) {c : Conn}
      (o : Outcome (Unit {0}))
      → s0.quit_closed ≡ false
      → Reach codec env read_error (accepted lines s0) c
      → c.result ≡ some o
      → c.interrupted ≡ false
      → handle_rpc_connection codec env lines s0 ≡ (o, c.server)
  connection_served f lines s0 o q reached r n =
      split (Reach-InOrder f lines s0 (accepted-InOrder lines s0 q) reached) r n
    where
      split :
          {c : Conn}
          → InOrder codec env lines s0 c
          → c.result ≡ some o
          → c.interrupted ≡ false
          → run codec env lines s0 ≡ (o, c.server)
      split (handled, inl k) r n = absurd (ground (arith, k.going))
      split (handled, inr (rest, k)) r n = k.whole o r n

-- ===== src/Rpc/Reader/Lost.antt =====
-- A connection whose reader fails (gocode/sanitizer_ole/rpc_server.go).
use cramc.Prelude.{
  true, ◌+◌, ◌≤◌, ◌≡◌, refl, sym, some, Option, List, [], ◌∷◌, ◌++◌, append-nil, append_assoc,
  length, length-append, arith, Bytes,
}
use mathlib.Core.Path.{subst}
use cramc.Prelude.Outcome.{GoError, ok}
use cramc.Rpc.Codec.{Codec}
use cramc.Rpc.Server.{Server, Env}
use cramc.Rpc.Reader.{
  Conn, msg_chan_size, read, read_fails, take_error, Reach, here, next, accepted,
}

module _ (codec : Codec) (env : Env) (read_error : Option GoError) where
  -- The lines that the reader has put in the channel, none of them taken.
  abbrev waiting : List Bytes → List Bytes → Server → Conn
  waiting before more s = record (accepted more s) { msg_chan = before }

  read_in :
      (before more : List Bytes) (s : Server) {c : Conn}
      → length before + length more ≤ msg_chan_size
      → Reach codec env read_error c (waiting before more s)
      → Reach codec env read_error c (waiting (before ++ more) [] s)
  read_in before [] s {c} n reached =
      subst (λ ls. Reach codec env read_error c (waiting ls [] s)) (sym (append-nil before)) reached
  read_in before (line ∷ more) s {c} n reached =
      subst (λ ls. Reach codec env read_error c (waiting ls [] s))
        (append_assoc before (line ∷ []) more)
        (read_in (before ++ line ∷ []) more s (omega (arith, length-append before (line ∷ [])))
          (next reached (read line more refl (omega arith) refl)))

-- A reader that fails behind lines that it has read whole: the loop can take the error before any
-- of them, as long as the channel holds them all, and then ends without having handled or answered
-- one, whatever they ask for.
pub lines_lost :
    (codec : Codec) (env : Env) (e : GoError) (lines : List Bytes) (s0 : Server)
    → length lines ≤ msg_chan_size
    → (c : Conn) × Reach codec env (some e) (accepted lines s0) c
      × (c.result ≡ some (ok tt))
      × (c.server ≡ s0)
lines_lost codec env e lines s0 n = (
  record (accepted [] s0) {
    msg_chan = lines;
    err_chan = some e;
    result = some (ok tt);
    interrupted = true;
  },
  next
      (next (read_in codec env (some e) [] lines s0 (omega arith) here)
        (read_fails e refl refl refl refl))
      (take_error e refl refl refl),
  refl,
  refl,
)

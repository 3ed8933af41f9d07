-- ===== src/Rpc/Reader.antt =====
-- The two goroutines of a connection in `handleRPCConnection` of
-- gocode/sanitizer_ole/rpc_server.go: one reads lines into a buffered channel, the other takes them
-- from it, or an error of the reader, or the end of the server. What the first one does once the
-- second has returned is left out.
pub mod Runs
pub mod Places
pub mod Order
pub mod Lost
pub mod Delivered
use cramc.Prelude.{
  ℕ, ◌<◌, ◌≡◌, Bool, true, false, Option, none, some, List, [], ◌∷◌, ◌++◌, if◌then◌else◌, length,
  Bytes,
}
use cramc.Prelude.Outcome.{GoError, Outcome, ok, err, panic, blocked}
use cramc.Rpc.Codec.{Codec}
use cramc.Rpc.Server.{Server, Env, Handled, handle_line}

-- `make(chan string, 100)`
abbrev pub msg_chan_size : ℕ
msg_chan_size = 100

-- What the peer has still to send, the channels, and the server as the loop has left it. `result`
-- is how the loop ended, and `interrupted` whether an error of the reader or another goroutine,
-- which closed `quit`, ended it.
pub record Conn : Type 0 where
  pub unread : List Bytes
  pub msg_chan : List Bytes
  pub msg_chan_closed : Bool
  pub err_chan : Option GoError
  pub server : Server
  pub result : Option (Outcome (Unit {0}))
  pub interrupted : Bool

-- The loop behind a handler.
abbrev pub after_line : Handled → Conn → Conn
after_line (ok e, s) c = record c {
  server = s;
  result = if s.quit_closed then some (ok tt) else none;
}
after_line (err e, s) c = record c { server = s; result = some (err e) }
after_line (panic, s) c = record c { server = s; result = some panic }
after_line (blocked, s) c = record c { server = s; result = some blocked }

-- `read_error` is what `scanner.Err()` says when there are no more lines.
module _ (codec : Codec) (env : Env) (read_error : Option GoError) where
  pub data Step (c d : Conn) : Type 0 where
    read :
        (line : Bytes) (more : List Bytes)
        → c.unread ≡ line ∷ more
        → length c.msg_chan < msg_chan_size
        → d ≡ record c { unread = more; msg_chan = c.msg_chan ++ line ∷ [] }
        → Step c d
    read_fails :
        (e : GoError)
        → c.unread ≡ []
        → c.msg_chan_closed ≡ false
        → read_error ≡ some e
        → d ≡ record c { err_chan = some e }
        → Step c d
    close_chan :
        c.unread ≡ [] → c.err_chan ≡ read_error → d ≡ record c { msg_chan_closed = true } → Step c d
    take_line :
        (line : Bytes) (more : List Bytes)
        → c.result ≡ none
        → c.msg_chan ≡ line ∷ more
        → d ≡ after_line (handle_line codec env line c.server) (record c { msg_chan = more })
        → Step c d
    take_end :
        c.result ≡ none
        → c.msg_chan ≡ []
        → c.msg_chan_closed ≡ true
        → d ≡ record c { result = some (ok tt) }
        → Step c d
    take_error :
        (e : GoError)
        → c.result ≡ none
        → c.err_chan ≡ some e
        → d ≡ record c { result = some (ok tt); interrupted = true }
        → Step c d
    quits : c.result ≡ none → d ≡ record c { result = some (ok tt); interrupted = true } → Step c d

  pub data Reach (c : Conn) : Conn → Type 0 where
    here : Reach c c
    next : {d e : Conn} → Reach c d → Step d e → Reach c e

-- A connection as it is accepted, with the lines that its peer will send.
abbrev pub accepted : List Bytes → Server → Conn
accepted lines s = record {
  unread = lines;
  msg_chan = [];
  msg_chan_closed = false;
  err_chan = none;
  server = s;
  result = none;
  interrupted = false;
}

-- ===== src/Rpc/Quit.antt =====
-- The channel `quit` of gocode/sanitizer_ole/rpc_server.go as the goroutines of a running server
-- share it: the end of `Start`, `Stop`, the accept loop, and of every connection its loop and its
-- watcher. The goroutines of the connections are alike, so a state counts how many stand at each
-- of their points. Fifteen seconds after its select `Stop` returns in any case.
pub mod Safety
pub mod Stop
pub mod Unheard
use cramc.Prelude.{
  ℕ, zero, suc, ◌+◌, ◌-◌, ◌*◌, ◌/◌, ◌%◌, ◌^◌, ◌≤◌, ◌<◌, String, ◌≡◌, refl, sym, ap, ◌∙◌, ◌≢◌, ◌↔◌,
  ◌⊎◌, inl, inr, Bool, true, false, not, ◌&&◌, ◌||◌, Option, none, some, List, [], ◌∷◌, ◌++◌, map,
  append-nil, append_assoc, arith, ltb, leb, ◌==◌, if◌then◌else◌, Bool-cases, Option-cases, length,
  take, drop, replicate, any, All, length-append, length-drop, take-append, drop-append, length-map,
  get_elem?, set, erase_at, get_elem?-append, set-append, erase_at-append, get_elem?-length, Bytes,
  codes, text_eq, text_eq_iff, text_eq_refl, text_eq-append, text_ne,
}

-- `Start` waits in its select, stands in `Stop` before the select on `quit`, or is past it.
pub data MainAt : Type 0 where
  serving : MainAt
  stopping : MainAt
  waiting : MainAt

pub record Quit : Type 0 where
  -- The channel is closed; `close` runs in `quitOnce` only.
  pub closed : Bool
  -- A send on the closed channel has ended the process.
  pub panicked : Bool
  pub main : MainAt
  -- The accept loop runs.
  pub accepting : Bool
  -- Connections in the select of their loop.
  pub idle : ℕ
  -- Connections that are blocked in the send of a request to quit, or of a refused document.
  pub asking : ℕ
  pub refusing : ℕ
  -- Connections between the send of a request to quit and `quitOnce`.
  pub closing : ℕ
  pub watching : ℕ
  -- What is still to come: requests to quit, documents that are refused, signals to the process.
  pub quits : ℕ
  pub refusals : ℕ
  pub signals : ℕ

pub data Sender : Type 0 where
  asker : Sender
  refuser : Sender

-- The selects that receive from `quit`: of `Start`, of `Stop`, of the accept loop, of a connection
-- and of its watcher.
pub data Receiver : Type 0 where
  server : Receiver
  stopper : Receiver
  acceptor : Receiver
  connection : Receiver
  watcher : Receiver

abbrev pub to_come : Sender → Quit → ℕ
to_come asker q = q.quits
to_come refuser q = q.refusals

abbrev pub blocked_in_send : Sender → Quit → ℕ
blocked_in_send asker q = q.asking
blocked_in_send refuser q = q.refusing

-- A connection takes a message and comes to its send on `quit`.
unfoldable pub sends : Sender → Quit → Quit
sends asker q = record q { idle = q.idle - 1; asking = q.asking + 1; quits = q.quits - 1 }
sends refuser q = record q {
  idle = q.idle - 1;
  refusing = q.refusing + 1;
  refusals = q.refusals - 1;
}

-- Behind the send: who asked goes on to `quitOnce`, who refused returns to the loop.
unfoldable pub sent : Sender → Quit → Quit
sent asker q = record q { asking = q.asking - 1; closing = q.closing + 1 }
sent refuser q = record q { refusing = q.refusing - 1; idle = q.idle + 1 }

abbrev Ready : Receiver → Quit → Type 0
Ready server q = q.main ≡ serving
Ready stopper q = q.main ≡ stopping
Ready acceptor q = q.accepting ≡ true
Ready connection q = 0 < q.idle
Ready watcher q = 0 < q.watching

-- `Stop` takes the send for the end of the server: it does not close the channel itself.
unfoldable pub receives : Receiver → Quit → Quit
receives server q = record q { main = stopping }
receives stopper q = record q { main = waiting }
receives acceptor q = record q { accepting = false }
receives connection q = record q { idle = q.idle - 1 }
receives watcher q = record q { watching = q.watching - 1 }

-- What a goroutine does once it finds the channel closed.
abbrev pub leaves : Receiver → Quit → Quit
leaves = receives

pub data Step (q r : Quit) : Type 0 where
  accept :
      q.accepting ≡ true
      → q.closed ≡ false
      → r ≡ record q { idle = q.idle + 1; watching = q.watching + 1 }
      → Step q r
  send : (s : Sender) → 0 < to_come s q → 0 < q.idle → r ≡ sends s q → Step q r
  hand_over :
      (s : Sender) (p : Receiver)
      → q.closed ≡ false
      → 0 < blocked_in_send s q
      → Ready p q
      → r ≡ receives p (sent s q)
      → Step q r
  send_closed :
      (s : Sender)
      → q.closed ≡ true
      → 0 < blocked_in_send s q
      → r ≡ record q { panicked = true }
      → Step q r
  close_once : 0 < q.closing → r ≡ record q { closing = q.closing - 1; closed = true } → Step q r
  stop_default :
      q.main ≡ stopping
      → q.closed ≡ false
      → q.asking ≡ 0
      → q.refusing ≡ 0
      → r ≡ record q { main = waiting; closed = true }
      → Step q r
  leave : (p : Receiver) → q.closed ≡ true → Ready p q → r ≡ leaves p q → Step q r
  hang_up : 0 < q.idle → r ≡ record q { idle = q.idle - 1 } → Step q r
  unwatch : 0 < q.watching → r ≡ record q { watching = q.watching - 1 } → Step q r
  signal :
      q.main ≡ serving
      → 0 < q.signals
      → r ≡ record q { main = stopping; signals = q.signals - 1 }
      → Step q r

pub data Reach (q : Quit) : Quit → Type 0 where
  here : Reach q q
  next : {r t : Quit} → Reach q r → Step r t → Reach q t

-- The server when `Start` comes to its select, with what is going to happen to it.
abbrev pub begun : ℕ → ℕ → Bool → Quit
begun quits refusals signalled = record {
  closed = false;
  panicked = false;
  main = serving;
  accepting = true;
  idle = 0;
  asking = 0;
  refusing = 0;
  closing = 0;
  watching = 0;
  quits = quits;
  refusals = refusals;
  signals = if signalled then 1 else 0;
}

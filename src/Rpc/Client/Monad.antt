-- ===== src/Rpc/Client/Monad.antt =====
-- The state of `RPCClient` in gocode/sanitizer_ole/rpc_client.go and the form of its methods: a
-- call changes the client and comes back with a value or an error.
use cramc.Prelude.{Bool, List, Bytes}
use cramc.Prelude.Outcome.{GoError, Outcome, ok, err, panic, blocked}

pub record Client : Type 0 where
  pub connected : Bool
  pub curr_conn : Bool
  pub pending : List Bytes
  pub sent : List Bytes

abbrev pub M : Type 0 → Type 0
M A = Client → Outcome A × Client

abbrev pub continue : {A B : Type 0} → Outcome A × Client → (A → M B) → Outcome B × Client
continue (ok a, s) f = f a s
continue (err e, s) f = (err e, s)
continue (panic, s) f = (panic, s)
continue (blocked, s) f = (blocked, s)

infixl 5 ◌>>=◌ ◌>>◌
abbrev pub ◌>>=◌ : {A B : Type 0} → M A → (A → M B) → M B
◌>>=◌ m f s = continue (m s) f

abbrev pub ◌>>◌ : {A B : Type 0} → M A → M B → M B
m >> n = m >>= λ _. n

abbrev pub return : {A : Type 0} → A → M A
return a s = (ok a, s)

abbrev pub raise : {A : Type 0} → GoError → M A
raise e s = (err e, s)

abbrev pub get : M Client
get s = (ok s, s)

abbrev pub modify : (Client → Client) → M (Unit {0})
modify f s = (ok tt, f s)

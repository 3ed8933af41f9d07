-- ===== src/Telemetry.antt =====
-- gocode/telemetry/general.go and betterstack.go. The variables of the package are the state; what
-- was posted to the service is a list. The system, encoding/json and net/http are parameters.
pub mod Posted
use cramc.Prelude.{
  ℕ, zero, suc, ◌+◌, ◌-◌, ◌*◌, ◌/◌, ◌%◌, ◌^◌, ◌≤◌, ◌<◌, String, ◌≡◌, refl, sym, ap, ◌∙◌, ◌≢◌, ◌↔◌,
  ◌⊎◌, inl, inr, Bool, true, false, not, ◌&&◌, ◌||◌, Option, none, some, List, [], ◌∷◌, ◌++◌, map,
  append-nil, append_assoc, arith, ltb, leb, ◌==◌, if◌then◌else◌, Bool-cases, Option-cases, length,
  take, drop, replicate, any, All, length-append, length-drop, take-append, drop-append, length-map,
  get_elem?, set, erase_at, get_elem?-append, set-append, erase_at-append, get_elem?-length, Bytes,
  codes, text_eq, text_eq_iff, text_eq_refl, text_eq-append, text_ne,
}
use cramc.Prelude.Outcome.{>>=-eq-ok, GoError, Outcome, ok, err, panic, blocked, ◌>>=◌, ◌>>◌}
use cramc.Rpc.Codec.{trim_space}

-- `telemetryEvent`
pub record Event : Type 0 where
  pub log_level : Bytes
  pub release_version : Bytes
  pub host_name : Bytes
  pub user_name : Bytes
  pub ip_address : Bytes
  pub runtime_os : Bytes
  pub runtime_arch : Bytes
  pub message : Bytes
  pub run_elevated : Bool
  pub local_unix_timestamp : ℕ

pub record BetterStackSender : Type 0 where
  pub send_url : Bytes
  pub bearer_token : Bytes

-- The host name is empty where it cannot be found, and `user` is nil where the user cannot be. The
-- clock counts the milliseconds, by what was posted before.
pub record TelemetryEnv : Type 0 where
  pub hostname : Bytes
  pub user : Option Bytes
  pub get_ip : Outcome (Outcome Bytes)
  pub runtime_os : Bytes
  pub runtime_arch : Bytes
  pub run_elevated : Bool
  pub clock : ℕ → ℕ
  pub marshal_error : Event → Option GoError
  pub new_request_error : Bytes → Option GoError
  pub do_error : BetterStackSender → Event → Option GoError

-- A sender that is set may be a nil pointer.
pub record Telemetry : Type 0 where
  pub host_inited : Bool
  pub sender_inited : Bool
  pub current_hostname : Bytes
  pub current_username : Bytes
  pub current_ip : Bytes
  pub current_sender : Option (Option BetterStackSender)
  pub current_rel_version : Bytes
  pub posted : List (BetterStackSender × Event)

abbrev body_read : Outcome Bytes → Bytes
body_read (ok body) = trim_space body
body_read _ = []

abbrev ip_got : Outcome (Outcome Bytes) → Bytes
ip_got (ok body) = body_read body
ip_got _ = []

-- `getCurrentPublicIP`
unfoldable pub get_current_public_ip : TelemetryEnv → Bytes
get_current_public_ip env = ip_got env.get_ip

abbrev username_of : Option Bytes → Bytes
username_of none = codes "unknown-user"
username_of (some name) = name

module _ (env : TelemetryEnv) where
  -- `Init`
  unfoldable pub init : Bytes → Telemetry → Telemetry
  unfolding get_current_public_ip
  init rel_version t = record t {
    current_rel_version = rel_version;
    current_hostname = env.hostname;
    current_username = username_of env.user;
    current_ip = get_current_public_ip env;
    host_inited = true;
  }

  -- `NewBetterStackSender`
  unfoldable pub new_better_stack_sender : Bytes → Bytes → Telemetry → Option BetterStackSender
  new_better_stack_sender server_url auth_token t =
      if not t.host_inited
      then none
      else some (record { send_url = server_url; bearer_token = auth_token })

  -- `SetDefaultSender`
  unfoldable pub set_default_sender : Option BetterStackSender → Telemetry → Telemetry
  set_default_sender bs t = record t { current_sender = some bs; sender_inited = true }

  unfoldable pub event_of : Bytes → Bytes → Telemetry → Event
  event_of level message t = record {
    log_level = level;
    release_version = t.current_rel_version;
    host_name = t.current_hostname;
    user_name = t.current_username;
    ip_address = t.current_ip;
    runtime_os = env.runtime_os;
    runtime_arch = env.runtime_arch;
    message = message;
    run_elevated = env.run_elevated;
    local_unix_timestamp = env.clock (length t.posted);
  }

  abbrev pub posting :
      BetterStackSender → Event → Option GoError → Option GoError → Telemetry → Telemetry
  posting bs ev none none t = record t { posted = t.posted ++ (bs, ev) ∷ [] }
  posting bs ev _ _ t = t

  -- The request is made of the sender's address, which a nil pointer does not have.
  abbrev pub requested :
      Option BetterStackSender → Event → Option GoError → Telemetry → Outcome (Unit {0}) × Telemetry
  requested bs ev (some e) t = (ok tt, t)
  requested none ev none t = (panic, t)
  requested (some bs) ev none t =
      (ok tt, posting bs ev (env.new_request_error bs.send_url) (env.do_error bs ev) t)

  -- `BetterStackSender.CaptureMessage`
  unfoldable pub bs_capture_message :
      Option BetterStackSender → Bytes → Bytes → Telemetry → Outcome (Unit {0}) × Telemetry
  unfolding event_of
  bs_capture_message bs level message t =
      requested bs (event_of level message t) (env.marshal_error (event_of level message t)) t

  abbrev captured :
      Option (Option BetterStackSender) → Bytes → Bytes → Telemetry → Outcome (Unit {0}) × Telemetry
  captured none level message t = (ok tt, t)
  captured (some bs) level message t = bs_capture_message bs level message t

  -- `CaptureMessage`
  unfoldable pub capture_message : Bytes → Bytes → Telemetry → Outcome (Unit {0}) × Telemetry
  unfolding bs_capture_message
  capture_message level message t =
      if not t.sender_inited then (ok tt, t) else captured t.current_sender level message t

  -- `CaptureException`, with the text of the error.
  unfoldable pub capture_exception : Bytes → Bytes → Telemetry → Outcome (Unit {0}) × Telemetry
  unfolding capture_message
  capture_exception err_text source t =
      capture_message (codes "error") (codes "from: " ++ source ++ codes ", " ++ err_text) t

  -- What both programs do first.
  unfoldable pub set_up : Bytes → Bytes → Bytes → Telemetry → Telemetry
  unfolding init new_better_stack_sender set_default_sender
  set_up rel_version server_url auth_token t =
      let t' = init rel_version t in
      set_default_sender (new_better_stack_sender server_url auth_token t') t'

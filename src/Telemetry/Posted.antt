-- ===== src/Telemetry/Posted.antt =====
-- Theorems on gocode/telemetry/general.go and betterstack.go.
use cramc.Prelude.{
  ◌≡◌, refl, ap, ◌∙◌, true, false, Option, none, some, List, [], ◌∷◌, ◌++◌, append-nil,
  append_assoc, Bytes,
}
use cramc.Prelude.Outcome.{GoError, Outcome, ok, err, panic, blocked}
use cramc.Telemetry.{
  Event, BetterStackSender, TelemetryEnv, Telemetry, event_of, posting, requested, capture_message,
  new_better_stack_sender, set_default_sender, set_up,
}

-- A program captures its messages one after the other, until one panics.
abbrev carried_on :
    (Telemetry → Outcome (Unit {0}) × Telemetry)
    → Outcome (Unit {0}) × Telemetry
    → Outcome (Unit {0}) × Telemetry
carried_on rest (ok u, t) = rest t
carried_on rest (err e, t) = (err e, t)
carried_on rest (panic, t) = (panic, t)
carried_on rest (blocked, t) = (blocked, t)

abbrev capture_all :
    TelemetryEnv → List (Bytes × Bytes) → Telemetry → Outcome (Unit {0}) × Telemetry
capture_all env [] t = (ok tt, t)
capture_all env ((level, message) ∷ more) t =
    carried_on (λ t'. capture_all env more t') (capture_message env level message t)

-- The events of the messages, numbered from what was posted before.
abbrev events :
    TelemetryEnv
    → BetterStackSender
    → List (Bytes × Bytes)
    → Telemetry
    → List (BetterStackSender × Event)
events env bs [] t = []
events env bs ((level, message) ∷ more) t =
    (bs, event_of env level message t)
    ∷ events env bs more (record t { posted = t.posted ++ (bs, event_of env level message t) ∷ [] })

carried_on-ok :
    (rest : Telemetry → Outcome (Unit {0}) × Telemetry) (r : Outcome (Unit {0}) × Telemetry)
    → r.0 ≡ ok tt
    → (carried_on rest r).0 ≡ (rest r.1).0
carried_on-ok rest (ok u, t) e = refl
carried_on-ok rest (err g, t) e = cc
carried_on-ok rest (panic, t) e = cc
carried_on-ok rest (blocked, t) e = cc

-- No call of the service fails.
pub record IsOnline (env : TelemetryEnv) : Type 0 where
  pub marshals : (ev : Event) → env.marshal_error ev ≡ none
  pub requests : (url : Bytes) → env.new_request_error url ≡ none
  pub answers : (bs : BetterStackSender) (ev : Event) → env.do_error bs ev ≡ none

-- A sender that is there is set.
record HasSender (t : Telemetry) (bs : BetterStackSender) : Type 0 where
  inited : t.sender_inited ≡ true
  sender : t.current_sender ≡ some (some bs)

module _ (env : TelemetryEnv) (bs : BetterStackSender) where
  capture_message-posts :
      (level message : Bytes) (t : Telemetry)
      → IsOnline env
      → HasSender t bs
      → capture_message env level message t
        ≡ (ok tt, record t { posted = t.posted ++ (bs, event_of env level message t) ∷ [] })
  unfolding capture_message
  capture_message-posts level message t online h =
      let ev = event_of env level message t in
      simp
        (h.inited, h.sender, online.marshals ev, online.requests bs.send_url, online.answers bs ev)

  requested_safe :
      (ev : Event) (e : Option GoError) (t : Telemetry)
      → HasSender t bs
      → let (o, t') = requested env (some bs) ev e t in (o ≡ ok tt) × HasSender t' bs
  requested_safe ev (some e) t h = (refl, h)
  requested_safe ev none t h =
      (refl, posting_safe (env.new_request_error bs.send_url) (env.do_error bs ev))
    where
      posting_safe : (p q : Option GoError) → HasSender (posting env bs ev p q t) bs
      posting_safe none none = record { inited = h.inited; sender = h.sender }
      posting_safe none (some e) = h
      posting_safe (some e) q = h

  capture_message_safe :
      (level message : Bytes) (t : Telemetry)
      → HasSender t bs
      → let (o, t') = capture_message env level message t in (o ≡ ok tt) × HasSender t' bs
  unfolding capture_message
  capture_message_safe level message t h =
      let ev = event_of env level message t in
      simp (h.inited, h.sender) (requested_safe ev (env.marshal_error ev) t h)

  capture_all_safe :
      (messages : List (Bytes × Bytes)) (t : Telemetry)
      → HasSender t bs
      → (capture_all env messages t).0 ≡ ok tt
  capture_all_safe [] t h = refl
  capture_all_safe ((level, message) ∷ more) t h =
      let (o, h') = capture_message_safe level message t h in
      carried_on-ok (λ t'. capture_all env more t') (capture_message env level message t) o
      ∙ capture_all_safe more (capture_message env level message t).1 h'

  capture_all-events :
      (messages : List (Bytes × Bytes)) (t : Telemetry)
      → IsOnline env
      → HasSender t bs
      → capture_all env messages t
        ≡ (ok tt, record t { posted = t.posted ++ events env bs messages t })
  capture_all-events [] t online h = rw (append-nil t.posted) refl
  capture_all-events ((level, message) ∷ more) t online h =
      rw (capture_message-posts level message t online h) (
        rw
          (capture_all-events more
            (record t { posted = t.posted ++ (bs, event_of env level message t) ∷ [] }) online
            (record { inited = h.inited; sender = h.sender }))
          (simp append_assoc))

-- Behind the set-up of the two programs no message ends the program, whatever fails of the service;
-- and if nothing fails, every message is posted once, in order, with the address and the token that
-- were set.
capture_all-set_up :
    (env : TelemetryEnv) (rel_version server_url auth_token : Bytes)
    (messages : List (Bytes × Bytes)) (t : Telemetry)
    → let t' = set_up env rel_version server_url auth_token t in
      let bs : BetterStackSender = record { send_url = server_url; bearer_token = auth_token } in
      ((capture_all env messages t').0 ≡ ok tt)
      × (IsOnline env
          → (capture_all env messages t').1.posted ≡ t.posted ++ events env bs messages t')
unfolding set_up
capture_all-set_up env rel_version server_url auth_token messages t =
    let bs : BetterStackSender = record { send_url = server_url; bearer_token = auth_token } in
    let t' = set_up env rel_version server_url auth_token t in
    let h : HasSender t' bs = record { inited = refl; sender = refl } in
    (
      capture_all_safe env bs messages t' h,
      λ online.
          ap (λ (r : Outcome (Unit {0}) × Telemetry). r.1.posted)
            (capture_all-events env bs messages t' online h),
    )

-- Without `Init` the sender is a nil pointer that is set all the same: the first message that is
-- marshalled ends the program.
capture_message-nil :
    (env : TelemetryEnv) (server_url auth_token level message : Bytes) (t : Telemetry)
    → t.host_inited ≡ false
    → ((ev : Event) → env.marshal_error ev ≡ none)
    → let bs = new_better_stack_sender env server_url auth_token t in
      (capture_message env level message (set_default_sender env bs t)).0 ≡ panic
unfolding capture_message set_default_sender new_better_stack_sender
capture_message-nil env server_url auth_token level message t cold marshals =
    simp (cold, marshals (event_of env level message t))

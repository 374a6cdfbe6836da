-- ===== src/Reaction/Stream.antt =====
-- `readRobotResponse` (robot.go) and `readReaction` (cbc.go) as functions of the stream of bytes that
-- waits and of the error behind it: how the answer is cut into packets plays no part.
use tlsscan.Base.{ℕ, ◌∷◌, [], leb, ◌==◌, if◌then◌else◌, inl, inr, Bool-cases, ◌≡◌, refl}
use tlsscan.Wire.{Bytes}
use tlsscan.Wire.Headers.{record_alert}
use tlsscan.Net.{NetError, Conn, Result, read_full}
use tlsscan.Net.Full.{flat}
use tlsscan.Net.Record.{read_record_header}
use tlsscan.Net.Stream.{
  Parsed, got, starved, refused, Agrees, bytes, header, read_full-Implements,
  read_record_header-Implements,
}
use tlsscan.Reaction.{
  Kind, alert, data_kept, handshake, Reaction, plain, classify_transport_error,
  classify_cbc_transport_error, alert_body, reaction_to, read_reaction, read_robot_response,
}

abbrev of_body : Parsed Bytes → Reaction
of_body (got (l ∷ d ∷ bs) rest) = record { kind = alert; alert_level = l; alert_desc = d }
of_body _ = plain alert

abbrev of_header : (NetError → Reaction) → Kind → (ℕ → ℕ) → NetError → Parsed (ℕ × ℕ × ℕ) → Reaction
of_header classify other n e (got (t, v, len) rest) =
    if t == record_alert
    then (if leb 2 len then of_body (bytes (n len) rest) else plain alert)
    else plain other
of_header classify other n e starved = classify e
of_header classify other n e (refused x) = classify x

-- What the ROBOT probe makes of the bytes that a server sends, and of the error behind them.
abbrev pub robot_reaction : Bytes → NetError → Reaction
robot_reaction s e = of_header classify_transport_error handshake (λ len. 2) e (header s)

-- The same of the CBC probe.
abbrev pub cbc_reaction : Bytes → NetError → Reaction
cbc_reaction s e = of_header classify_cbc_transport_error data_kept (λ len. len) e (header s)

alert_body-of_body :
    (c : Conn) (r : Result Bytes × Conn) (q : Parsed Bytes)
    → Agrees c r q
    → (alert_body r).0 ≡ of_body q
unfolding alert_body
alert_body-of_body c r (got [] rest) (ps, e, f) = rw e
alert_body-of_body c r (got (l ∷ []) rest) (ps, e, f) = rw e
alert_body-of_body c r (got (l ∷ d ∷ bs) rest) (ps, e, f) = rw e
alert_body-of_body c r starved (ps, e) = rw e
alert_body-of_body c r (refused x) (ps, e) = rw e

reaction_to-of_header :
    (classify : NetError → Reaction) (other : Kind) (n : ℕ → ℕ) (c : Conn)
    (r : Result (ℕ × ℕ × ℕ) × Conn) (q : Parsed (ℕ × ℕ × ℕ))
    → Agrees c r q
    → (reaction_to classify other n r).0 ≡ of_header classify other n (c.peer.fault c.sent) q
unfolding reaction_to
reaction_to-of_header classify other n c r (got (t, v, len) rest) (ps, e, f) =
    elim (Bool-cases (t == record_alert)) [
      | inr no_alert ↦ rw (e, no_alert) refl
      | inl is_alert ↦ elim (Bool-cases (leb 2 len)) [
        | inr short ↦ rw (e, is_alert, short) refl
        | inl long ↦
            let d : Conn = record c { inbound = ps } in
            rw (e, is_alert, long, ← f)
              (alert_body-of_body d (read_full (n len) d) (bytes (n len) (flat ps))
                (read_full-Implements (n len) d))
      ]
    ]
reaction_to-of_header classify other n c r starved (ps, e) = rw e
reaction_to-of_header classify other n c r (refused x) (ps, e) = rw e

-- `readRobotResponse` depends on the stream and on the error behind it alone.
pub read_robot_response_lem :
    (c : Conn) → (read_robot_response c).0 ≡ robot_reaction (flat c.inbound) (c.peer.fault c.sent)
unfolding read_robot_response
read_robot_response_lem c =
    reaction_to-of_header classify_transport_error handshake (λ len. 2) c (read_record_header c)
      (header (flat c.inbound)) (read_record_header-Implements c)

-- `readReaction` depends on the stream and on the error behind it alone.
pub read_reaction_lem :
    (c : Conn) → (read_reaction c).0 ≡ cbc_reaction (flat c.inbound) (c.peer.fault c.sent)
unfolding read_reaction
read_reaction_lem c =
    reaction_to-of_header classify_cbc_transport_error data_kept (λ len. len) c
      (read_record_header c) (header (flat c.inbound)) (read_record_header-Implements c)

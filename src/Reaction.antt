-- ===== src/Reaction.antt =====
-- How a server reacted to a crafted record: `cbcReaction`, `readReaction` and
-- `classifyCBCTransportError` (cbc.go), `robotSignature`, `readRobotResponse` and
-- `classifyTransportError` (robot.go). The two structs have the same fields and the same `equal`;
-- their kinds differ in one name, `data` for `handshake`.
pub mod Laws
pub mod Stream
use tlsscan.Base.{ℕ, Bool, true, false, ◌&&◌, ◌||◌, [], ◌∷◌, leb, ◌==◌, if◌then◌else◌}
use tlsscan.Base.Text.{codes, contains_substr}
use tlsscan.Wire.{Bytes}
use tlsscan.Wire.Headers.{record_alert}
use tlsscan.Net.{NetError, Conn, Result, ok, err, read_full}
use tlsscan.Net.Record.{read_record_header}

-- `unset` is the empty string of a struct's zero value.
pub data Kind : Type 0 where
  unset alert handshake data_kept closed reset timeout error : Kind

pub Kind-discrete : Discrete Kind
Kind-discrete = hlevel

pub record Reaction : Type 0 where
  pub kind : Kind
  pub alert_level : ℕ
  pub alert_desc : ℕ

-- A reaction that is known by its kind alone.
abbrev pub plain : Kind → Reaction
plain k = record { kind = k; alert_level = 0; alert_desc = 0 }

kind_code : Kind → ℕ
kind_code alert = 0
kind_code handshake = 1
kind_code data_kept = 2
kind_code closed = 3
kind_code reset = 4
kind_code timeout = 5
kind_code error = 6
kind_code unset = 7

-- `a == b` on the strings that name the kinds.
unfoldable pub same_kind : Kind → Kind → Bool
unfolding kind_code
same_kind a b = kind_code a == kind_code b

-- The method `equal`: level and description count only between alerts.
unfoldable pub equal : Reaction → Reaction → Bool
unfolding same_kind
equal r o =
    if same_kind r.kind o.kind
    then (if same_kind r.kind alert
        then r.alert_level == o.alert_level && r.alert_desc == o.alert_desc
        else true)
    else false

-- The kind of a transport error: a timeout, or what its text contains.
transport_kind : NetError → Kind
transport_kind e =
    if e.timeout
    then timeout
    else if contains_substr e.message (codes "reset")
    then reset
    else if contains_substr e.message (codes "EOF")
        || contains_substr e.message (codes "closed")
        || contains_substr e.message (codes "broken pipe")
    then closed
    else error

unfoldable pub classify_transport_error : NetError → Reaction
unfolding transport_kind
classify_transport_error e = plain (transport_kind e)

unfoldable pub classify_cbc_transport_error : NetError → Reaction
unfolding transport_kind
classify_cbc_transport_error e = plain (transport_kind e)

-- The alert's body, if it could be read.
alert_body : Result Bytes × Conn → Reaction × Conn
alert_body (ok (l ∷ d ∷ bs), c) = (record { kind = alert; alert_level = l; alert_desc = d }, c)
alert_body (ok bs, c) = (plain alert, c)
alert_body (err e, c) = (plain alert, c)

-- After the header: `n` is how many bytes of an alert of `len` bytes are read.
reaction_to : (NetError → Reaction) → Kind → (ℕ → ℕ) → Result (ℕ × ℕ × ℕ) × Conn → Reaction × Conn
unfolding alert_body
reaction_to classify other n (err e, c) = (classify e, c)
reaction_to classify other n (ok (t, v, len), c) =
    if t == record_alert
    then (if leb 2 len then alert_body (read_full (n len) c) else (plain alert, c))
    else (plain other, c)

-- `readReaction` reads the whole alert and keeps its first two bytes.
unfoldable pub read_reaction : Conn → Reaction × Conn
unfolding reaction_to
read_reaction c =
    reaction_to classify_cbc_transport_error data_kept (λ len. len) (read_record_header c)

-- `readRobotResponse` reads two bytes of it.
unfoldable pub read_robot_response : Conn → Reaction × Conn
unfolding reaction_to
read_robot_response c =
    reaction_to classify_transport_error handshake (λ len. 2) (read_record_header c)

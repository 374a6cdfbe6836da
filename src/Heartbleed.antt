-- ===== src/Heartbleed.antt =====
-- internal/vulns/heartbleed.go: the Heartbleed probe, from the dial to the verdict. An error of the
-- probe is `none`: its caller asks only whether there is one.
pub mod Verdict
use tlsscan.Base.{ℕ, Bool, true, false, not, Option, none, some, ltb, ◌==◌, if◌then◌else◌}
use tlsscan.Wire.{Bytes}
use tlsscan.Wire.Headers.{record_heartbeat}
use tlsscan.Wire.Hello.{client_hello_with_heartbeat, malicious_heartbeat}
use tlsscan.Net.{Peer, Conn, Result, ok, err, Io, ◌>>=◌, pure, dial, write, read, read_full}
use tlsscan.Net.Record.{header_fields}
use tlsscan.Probe.{or_else}

-- What `drainHandshake` makes of its one read: a timeout is no error.
unfoldable pub drained : Result Bytes × Conn → Option Conn
drained (ok b, c) = some c
drained (err e, c) = if e.timeout then some c else none

unfoldable pub drain_handshake : Conn → Option Conn
drain_handshake c = drained (read 4096 c)

-- The read of the leaked bytes, whose outcome is not looked at.
abbrev pub leaked : ℕ → Io Bool
leaked len c = (ok true, (read len c).1)

abbrev pub judge : ℕ × ℕ × ℕ → Io Bool
judge h =
    if not (h.0 == record_heartbeat)
    then pure false
    else if ltb 16 h.2
    then leaked h.2
    else pure false

unfoldable pub read_heartbeat_response : Io Bool
read_heartbeat_response = read_full 5 >>= λ h. judge (header_fields h)

-- After the malicious heartbeat; an error of the read is the verdict false.
unfoldable pub after_heartbeat : Bool × Conn → Option Bool
after_heartbeat (false, c) = none
after_heartbeat (true, c) = some (or_else false (read_heartbeat_response c))

unfoldable pub after_drain : Option Conn → Option Bool
after_drain none = none
after_drain (some c) = after_heartbeat (write malicious_heartbeat c)

unfoldable pub after_hello : Bool × Conn → Option Bool
after_hello (false, c) = none
after_hello (true, c) = after_drain (drain_handshake c)

unfoldable pub heartbleed : Option Peer → Option Bool
heartbleed target = elim (dial target) [
  | none ↦ none
  | some c ↦ after_hello (write client_hello_with_heartbeat c)
]

-- ===== src/Session/Reader.antt =====
-- internal/handshake/cbc.go: `hsReader`, whose state is the buffer, and its method `next`.
use tlsscan.Base.{
  ℕ, zero, suc, Bool, true, false, not, ◌&&◌, ◌||◌, ◌++◌, length, take, drop, ltb, leb, ◌==◌,
  if◌then◌else◌,
}
use tlsscan.Wire.{Bytes}
use tlsscan.Wire.Headers.{record_handshake}
use tlsscan.Net.{Io, ◌>>=◌, pure, read_full}
use tlsscan.Net.Record.{read_record_header}
use tlsscan.Probe.{first_byte}
use tlsscan.Renegotiation.{msg_len}
use tlsscan.Session.{abandon}

-- A message, with its type and its header, and the buffer that is left.
pub record Next : Type 0 where
  pub kind : ℕ
  pub msg : Bytes
  pub buf : Bytes

-- `len(r.buf) >= 4` and `msgLen <= len(r.buf)`.
abbrev pub holds_message : Bytes → Bool
holds_message buf = leb 4 (length buf) && leb (msg_len buf) (length buf)

abbrev pub taken : Bytes → Next
taken buf = record {
  kind = first_byte buf;
  msg = take (msg_len buf) buf;
  buf = drop (msg_len buf) buf;
}

-- The runaway guard after a payload, and the next round.
unfoldable pub grown : (Bytes → Io Next) → Bytes → Io Next
grown next buf = if ltb 262144 (length buf) then abandon else next buf

unfoldable pub next_payload : (Bytes → Io Next) → Bytes → Io Next
next_payload next buf = read_record_header >>= λ h.
    if not (h.0 == record_handshake) || (ltb h.2 1 || ltb 65536 h.2)
    then abandon
    else (read_full h.2 >>= λ payload. grown next (buf ++ payload))

unfoldable pub next_loop : ℕ → Bytes → Io Next
next_loop zero buf = abandon
next_loop (suc fuel) buf = elim (holds_message buf) [
  | true ↦ pure (taken buf)
  | false ↦ next_payload (next_loop fuel) buf
]

-- Each round adds a byte at least, and the loop is left above 262144 bytes.
unfoldable pub next : Bytes → Io Next
next buf = next_loop 262146 buf

-- ===== src/Renegotiation/Message.antt =====
-- internal/handshake/probes.go: `readServerHelloMessage` as a parser of the stream of bytes.
use tlsscan.Base.{
  ℕ, zero, suc, true, false, not, ◌&&◌, ◌||◌, ◌++◌, Option, none, length, ltb, leb, ◌==◌,
  if◌then◌else◌, inl, inr, Bool-cases,
}
use tlsscan.Wire.{Bytes}
use tlsscan.Wire.Headers.{record_handshake}
use tlsscan.Net.{Io, pure, read_full}
use tlsscan.Net.Record.{read_record_header}
use tlsscan.Net.Stream.{
  got, Parser, then_parse, Implements, bytes, header, read_full-Implements, pure-Implements,
  >>=-Implements, read_record_header-Implements,
}
use tlsscan.Probe.Stream.{if-Implements}
use tlsscan.Renegotiation.{msg_len, incomplete, assembled, extend, next_record, message_loop}

-- The specification of the loop on the stream of bytes.
abbrev pub extend_parser : (Bytes → Parser (Option Bytes)) → Bytes → Parser (Option Bytes)
extend_parser next buf =
    if ltb 65536 (length buf)
    then got (assembled buf)
    else if leb 4 (length buf) && ltb 65536 (msg_len buf)
    then got none
    else next buf

abbrev pub payload_parser :
    (Bytes → Parser (Option Bytes)) → Bytes → ℕ × ℕ × ℕ → Parser (Option Bytes)
payload_parser next buf h =
    if not (h.0 == record_handshake) || ltb h.2 1
    then got none
    else (λ s. then_parse (bytes h.2 s) (λ payload. extend_parser next (buf ++ payload)))

abbrev pub record_parser : (Bytes → Parser (Option Bytes)) → Bytes → Parser (Option Bytes)
record_parser next buf s = then_parse (header s) (payload_parser next buf)

unfoldable pub loop_parser : ℕ → Bytes → Parser (Option Bytes)
loop_parser zero buf = got none
loop_parser (suc fuel) buf = elim (incomplete buf) [
  | false ↦ got (assembled buf)
  | true ↦ record_parser (loop_parser fuel) buf
]

extend-Implements :
    (next : Bytes → Io (Option Bytes)) (spec : Bytes → Parser (Option Bytes)) (buf : Bytes)
    → ((b : Bytes) → Implements (next b) (spec b))
    → Implements (extend next buf) (extend_parser spec buf)
unfolding extend
extend-Implements next spec buf h =
    if-Implements (ltb 65536 (length buf)) (pure (assembled buf)) _ (got (assembled buf)) _
      (pure-Implements (assembled buf))
      (if-Implements (leb 4 (length buf) && ltb 65536 (msg_len buf)) (pure none) (next buf)
        (got none) (spec buf) (pure-Implements none) (h buf))

next_record-Implements :
    (next : Bytes → Io (Option Bytes)) (spec : Bytes → Parser (Option Bytes)) (buf : Bytes)
    → ((b : Bytes) → Implements (next b) (spec b))
    → Implements (next_record next buf) (record_parser spec buf)
unfolding next_record
next_record-Implements next spec buf h =
    >>=-Implements read_record_header header _ (payload_parser spec buf)
      read_record_header-Implements
      (λ r.
        if-Implements (not (r.0 == record_handshake) || ltb r.2 1) (pure none) _ (got none) _
          (pure-Implements none)
          (>>=-Implements (read_full r.2) (bytes r.2) (λ p. extend next (buf ++ p))
            (λ p. extend_parser spec (buf ++ p)) (read_full-Implements r.2)
            (λ p. extend-Implements next spec (buf ++ p) h)))

pub message_loop-Implements :
    (fuel : ℕ) (buf : Bytes) → Implements (message_loop fuel buf) (loop_parser fuel buf)
unfolding message_loop loop_parser
message_loop-Implements zero buf = pure-Implements none
message_loop-Implements (suc fuel) buf = elim (Bool-cases (incomplete buf)) [
  | inl e ↦
      rw (e, message_loop, loop_parser)
        (next_record-Implements (message_loop fuel) (loop_parser fuel) buf
          (message_loop-Implements fuel))
  | inr e ↦ rw (e, message_loop, loop_parser) (pure-Implements (assembled buf))
]

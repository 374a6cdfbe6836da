-- ===== src/Renegotiation.antt =====
-- internal/handshake/probes.go: `readServerHelloMessage` and `ProbeInsecureRenegotiation`.
pub mod Message
pub mod Reassembly
pub mod Verdict
use tlsscan.Base.{
  ℕ, zero, suc, ◌+◌, Bool, true, false, not, ◌&&◌, ◌||◌, List, [], ◌∷◌, ◌++◌, Option, none, some,
  length, take, ltb, leb, ◌==◌, if◌then◌else◌,
}
use tlsscan.Wire.{Bytes, get24}
use tlsscan.Wire.Headers.{record_handshake, version_tls12}
use tlsscan.Wire.Hello.{client_hello_tls}
use tlsscan.Net.{Peer, Io, ◌>>=◌, pure, read_full}
use tlsscan.Net.Record.{read_record_header}
use tlsscan.Probe.{ask, first_byte, handshake_server_hello}
use tlsscan.Parse.{server_hello_has_extension}

-- The length of the message that begins in the buffer, its header included. It is asked for with
-- at least four bytes in the buffer.
abbrev pub msg_len : Bytes → ℕ
msg_len (t ∷ a ∷ b ∷ c ∷ rest) = 4 + get24 a b c
msg_len _ = 4

-- The condition of the loop.
abbrev pub incomplete : Bytes → Bool
incomplete buf = ltb (length buf) 4 || ltb (length buf) (msg_len buf)

-- After the loop: the message, if it is a ServerHello and complete.
unfoldable pub assembled : Bytes → Option Bytes
assembled buf =
    if ltb (length buf) 4 || not (first_byte buf == handshake_server_hello)
    then none
    else if ltb (length buf) (msg_len buf)
    then none
    else some (take (msg_len buf) buf)

-- The end of a round, on the buffer with the new payload: the loop is left, given up, or run on.
unfoldable pub extend : (Bytes → Io (Option Bytes)) → Bytes → Io (Option Bytes)
extend next buf =
    if ltb 65536 (length buf)
    then pure (assembled buf)
    else if leb 4 (length buf) && ltb 65536 (msg_len buf)
    then pure none
    else next buf

-- A round of the loop.
unfoldable pub next_record : (Bytes → Io (Option Bytes)) → Bytes → Io (Option Bytes)
next_record next buf = read_record_header >>= λ h.
    if not (h.0 == record_handshake) || ltb h.2 1
    then pure none
    else (read_full h.2 >>= λ payload. extend next (buf ++ payload))

unfoldable pub message_loop : ℕ → Bytes → Io (Option Bytes)
message_loop zero buf = pure none
message_loop (suc fuel) buf = elim (incomplete buf) [
  | false ↦ pure (assembled buf)
  | true ↦ next_record (message_loop fuel) buf
]

-- Each round adds a byte at least, and the loop is left above 65536 bytes.
unfoldable pub read_server_hello_message : Io (Option Bytes)
read_server_hello_message = message_loop 65538 []

abbrev pub renegotiation_suites : List ℕ
renegotiation_suites =
    0xc02f ∷ 0xc030 ∷ 0xc02b ∷ 0xc02c ∷ 0xc013 ∷ 0xc014 ∷ 0x009c ∷ 0x009d ∷ 0x002f ∷ 0x0035 ∷ []

unfoldable pub renegotiation_hello : Bytes
renegotiation_hello =
    client_hello_tls version_tls12 version_tls12 renegotiation_suites
      (0xff ∷ 0x01 ∷ 0x00 ∷ 0x01 ∷ 0x00 ∷ [])

-- `none` stands for a panic of the parser.
abbrev pub negated : Option Bool → Option Bool
negated none = none
negated (some b) = some (not b)

unfoldable pub lacks : Option Bytes → Option Bool
lacks none = some false
lacks (some msg) = negated (server_hello_has_extension msg 0xff01)

unfoldable pub probe_insecure_renegotiation : Option Peer → Option Bool
probe_insecure_renegotiation target =
    ask (some false) renegotiation_hello (read_server_hello_message >>= λ m. pure (lacks m)) target

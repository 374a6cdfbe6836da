-- ===== src/Probe.antt =====
-- The probes that decide by the first bytes of one reply: `serverSelectsOffered`,
-- `ProbeExportRSA`, `ProbeExportDH`, `ProbeFallbackSCSVMissing` (probes.go), `ProbeSSL3` and
-- `ProbeSSL2` (legacy.go). The target is `none` where the dial fails.
pub mod Stream
pub mod Legacy
pub mod Verdict
use Prim.Native.Nat.{bit_and}
use tlsscan.Base.{
  ℕ, ◌+◌, ◌*◌, Bool, true, false, not, ◌&&◌, ◌||◌, List, [], ◌∷◌, Option, none, some, ltb, leb,
  ◌==◌, if◌then◌else◌,
}
use tlsscan.Wire.{Bytes}
use tlsscan.Wire.Headers.{record_alert, record_handshake, version_ssl30, version_tls10}
use tlsscan.Wire.Hello.{client_hello_tls, client_hello_ssl3, client_hello_ssl2}
use tlsscan.Net.{Peer, Conn, Result, ok, err, Io, after, ◌>>=◌, pure, dial, write, read_full}
use tlsscan.Net.Record.{read_record_header}

abbrev pub handshake_server_hello : ℕ
handshake_server_hello = 0x02

-- `b[0]` of a buffer that `readFull` has filled.
abbrev pub first_byte : Bytes → ℕ
first_byte [] = 0
first_byte (b ∷ bs) = b

-- `b[1]`.
abbrev pub second_byte : Bytes → ℕ
second_byte (a ∷ b ∷ bs) = b
second_byte _ = 0

abbrev pub or_else : {A : Type 0} → A → Result A × Conn → A
or_else d (ok a, c) = a
or_else d (err e, c) = d

abbrev ask_on : {A : Type 0} → A → Io A → Bool × Conn → A
ask_on d run (sent, c) = if sent then or_else d (run c) else d

-- How every such probe uses a connection: dial, write the request, read the reply, with the
-- answer `d` where any of these fails.
unfoldable pub ask : {A : Type 0} → A → Bytes → Io A → Option Peer → A
ask d request run target = elim (dial target) [ none ↦ d | some c ↦ ask_on d run (write request c) ]

-- Whether the first byte of the message is `k`, and so whether it is a ServerHello.
abbrev pub read_first : ℕ → Io Bool
read_first k = do first ← read_full 1; pure (first_byte first == k)

abbrev pub read_server_hello_type : Io Bool
read_server_hello_type = read_first handshake_server_hello

unfoldable pub select_reply : Io Bool
select_reply = do
  h ← read_record_header
  if not (h.0 == record_handshake) || ltb h.2 1 then pure false else read_server_hello_type

unfoldable pub server_selects_offered : Option Peer → Bytes → Bool
server_selects_offered target hello = ask false hello select_reply target

abbrev pub export_rsa_suites : List ℕ
export_rsa_suites = 0x0003 ∷ 0x0008 ∷ 0x0064 ∷ 0x0062 ∷ []

unfoldable pub probe_export_rsa : Option Peer → Bool
probe_export_rsa target =
    server_selects_offered target
      (client_hello_tls version_tls10 version_tls10 export_rsa_suites [])

abbrev pub export_dh_suites : List ℕ
export_dh_suites = 0x0014 ∷ 0x0011 ∷ []

unfoldable pub probe_export_dh : Option Peer → Bool
probe_export_dh target =
    server_selects_offered target (client_hello_tls version_tls10 version_tls10 export_dh_suites [])

abbrev pub fallback_suites : List ℕ
fallback_suites = 0xc02f ∷ 0xc030 ∷ 0xc013 ∷ 0xc014 ∷ 0x002f ∷ 0x0035 ∷ 0x000a ∷ 0x5600 ∷ []

-- Both answers to an alert are false: the fatal `inappropriate_fallback` of level 2 shows that
-- the mitigation is present, and any other alert proves nothing.
unfoldable pub alert_reply : ℕ → Io Bool
alert_reply len =
    if leb 2 len
    then (do
      alert ← read_full 2
      if first_byte alert == 0x02 && second_byte alert == 0x56 then pure false else pure false)
    else pure false

unfoldable pub fallback_reply : Io Bool
unfolding alert_reply
fallback_reply = do
  h ← read_record_header
  if h.0 == record_alert
      then alert_reply h.2
      else if h.0 == record_handshake && leb 1 h.2
      then read_server_hello_type
      else pure false

unfoldable pub probe_fallback_scsv_missing : Option Peer → ℕ → Bool
probe_fallback_scsv_missing target version =
    ask false (client_hello_tls version version fallback_suites []) fallback_reply target

unfoldable pub ssl3_reply : Io Bool
ssl3_reply = do
  h ← read_record_header
  if h.0 == record_alert
      then pure false
      else if not (h.0 == record_handshake) || not (h.1 == version_ssl30) || ltb h.2 1
      then pure false
      else read_server_hello_type

unfoldable pub probe_ssl3 : Option Peer → Bool
probe_ssl3 target = ask false client_hello_ssl3 ssl3_reply target

-- The two header bytes of SSLv2: the high bit of the first, and a length of 15 bits.
unfoldable pub ssl2_reply : Io Bool
ssl2_reply = do
  h ← read_full 2
  if bit_and (first_byte h) 0x80 == 0
      then pure false
      else if ltb (bit_and (first_byte h) 0x7f * 256 + second_byte h) 1
      then pure false
      else read_first 0x04

unfoldable pub probe_ssl2 : Option Peer → Bool
probe_ssl2 target = ask false client_hello_ssl2 ssl2_reply target

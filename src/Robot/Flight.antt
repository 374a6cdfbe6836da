-- ===== src/Robot/Flight.antt =====
-- internal/handshake/robot.go: `readServerHelloAndCert`. What `x509.ParseCertificate` makes of a
-- certificate is the argument `rsa_key`.
use tlsscan.Base.{
  ℕ, zero, suc, Bool, true, false, not, ◌&&◌, ◌||◌, [], ◌++◌, Option, none, some, length, take,
  drop, ltb, ◌==◌, if◌then◌else◌,
}
use tlsscan.Wire.{Bytes}
use tlsscan.Wire.Headers.{record_handshake}
use tlsscan.Net.{Conn, Result, ok, err, Io, pure, read_full}
use tlsscan.Net.Record.{read_record_header}
use tlsscan.Parse.{parse_leaf_rsa_key}
use tlsscan.Probe.{first_byte, handshake_server_hello}
use tlsscan.Renegotiation.{msg_len}
use tlsscan.Session.{RsaPublicKey, parsed}
use tlsscan.Session.Reader.{holds_message}
use tlsscan.Session.Flight.{handshake_certificate, handshake_server_hello_done}

-- `sawServerHello` and `pub`.
pub record Seen : Type 0 where
  pub hello : Bool
  pub key : Option RsaPublicKey

abbrev pub is_found : Option RsaPublicKey → Bool
is_found none = false
is_found (some k) = true

-- `if k := parseLeafRSAKey(msg); k != nil { pub = k }`.
abbrev pub with_key : Seen → Option RsaPublicKey → Seen
with_key s none = s
with_key s (some k) = record s { key = some k }

-- One message: the loop returns at the ServerHelloDone, and else goes on with what it has seen.
abbrev pub on_message :
    {A : Type 0}
    → (Bytes → Option RsaPublicKey)
    → Bytes
    → Seen
    → (Bool × Option RsaPublicKey → A)
    → (Seen → A)
    → A
on_message rsa_key msg s return_ go =
    if first_byte msg == handshake_server_hello
    then go (record s { hello = true })
    else if first_byte msg == handshake_certificate
    then go (with_key s (parsed (parse_leaf_rsa_key rsa_key msg)))
    else if first_byte msg == handshake_server_hello_done
    then return_ (s.hello && is_found s.key, s.key)
    else go s

-- The messages of the buffer: a result, or what is left of the buffer.
pub data Drained : Type 0 where
  returns : Bool × Option RsaPublicKey → Drained
  leaves : Bytes → Seen → Drained

-- A step that goes on with the value `d` after an error.
abbrev pub caught : {A B : Type 0} → B → Result A × Conn → (A → Io B) → Result B × Conn
caught d (ok a, c) k = k a c
caught d (err e, c) k = (ok d, c)

abbrev pub read_or : {A B : Type 0} → B → Io A → (A → Io B) → Io B
read_or d m k c = caught d (m c) k

module _ (rsa_key : Bytes → Option RsaPublicKey) where
  -- The inner loop; each message takes four bytes at least.
  unfoldable pub drain : ℕ → Bytes → Seen → Drained
  drain zero buf s = leaves buf s
  drain (suc fuel) buf s = elim (holds_message buf) [
    | false ↦ leaves buf s
    | true ↦
        on_message rsa_key (take (msg_len buf) buf) s returns (drain fuel (drop (msg_len buf) buf))
  ]

  -- The runaway guard, and the next record.
  abbrev pub drained :
      (Bytes → Seen → Io (Bool × Option RsaPublicKey)) → Drained → Io (Bool × Option RsaPublicKey)
  drained go (returns r) = pure r
  drained go (leaves buf s) = if ltb 131072 (length buf) then pure (false, none) else go buf s

  abbrev pub on_payload :
      (Bytes → Seen → Io (Bool × Option RsaPublicKey))
      → Bytes
      → Seen
      → Bytes
      → Io (Bool × Option RsaPublicKey)
  on_payload go buf s payload = drained go (drain (length (buf ++ payload)) (buf ++ payload) s)

  abbrev pub on_header :
      (Bytes → Seen → Io (Bool × Option RsaPublicKey))
      → Bytes
      → Seen
      → ℕ × ℕ × ℕ
      → Io (Bool × Option RsaPublicKey)
  on_header go buf s h =
      if not (h.0 == record_handshake) || (ltb h.2 1 || ltb 65536 h.2)
      then pure (false, none)
      else read_or (false, s.key) (read_full h.2) (on_payload go buf s)

  -- At most `records` records.
  unfoldable pub flight_loop : ℕ → Bytes → Seen → Io (Bool × Option RsaPublicKey)
  flight_loop zero buf s = pure (false, s.key)
  flight_loop (suc records) buf s =
      read_or (false, s.key) read_record_header (on_header (flight_loop records) buf s)

  unfoldable pub read_server_hello_and_cert : Io (Bool × Option RsaPublicKey)
  read_server_hello_and_cert = flight_loop 16 [] (record { hello = false; key = none })

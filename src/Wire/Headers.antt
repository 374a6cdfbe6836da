-- ===== src/Wire/Headers.antt =====
-- Record and handshake framing: `wrapTLS12Record` (robot.go), `wrapSSL3Record` (legacy.go),
-- `wrapRecord` (heartbleed.go) and `wrapHandshake` (cbc.go).
use tlsscan.Base.{ℕ, ◌∷◌, ◌++◌, length}
use tlsscan.Wire.{Bytes, put16, put24}

abbrev pub record_change_cipher_spec : ℕ
record_change_cipher_spec = 0x14

abbrev pub record_alert : ℕ
record_alert = 0x15

abbrev pub record_handshake : ℕ
record_handshake = 0x16

abbrev pub record_application_data : ℕ
record_application_data = 0x17

abbrev pub record_heartbeat : ℕ
record_heartbeat = 0x18

abbrev pub version_ssl30 : ℕ
version_ssl30 = 0x0300

abbrev pub version_tls10 : ℕ
version_tls10 = 0x0301

abbrev pub version_tls11 : ℕ
version_tls11 = 0x0302

abbrev pub version_tls12 : ℕ
version_tls12 = 0x0303

-- A record header of any version before a body; the length is cut to 16 bits.
abbrev pub framed : ℕ → ℕ → Bytes → Bytes
framed version content_type body = content_type ∷ (put16 version ++ (put16 (length body) ++ body))

unfoldable pub wrap_tls12_record : ℕ → Bytes → Bytes
wrap_tls12_record = framed version_tls12

unfoldable pub wrap_ssl3_record : ℕ → Bytes → Bytes
wrap_ssl3_record = framed version_ssl30

-- `wrapRecord` of the Heartbleed probe, which speaks TLS 1.1.
unfoldable pub wrap_record : ℕ → Bytes → Bytes
wrap_record = framed version_tls11

-- A handshake header: type, and a length of 24 bits.
unfoldable pub wrap_handshake : ℕ → Bytes → Bytes
wrap_handshake msg_type body = msg_type ∷ (put24 (length body) ++ body)

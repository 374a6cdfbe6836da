-- ===== src/Session/Flight.antt =====
-- internal/handshake/cbc.go: `establishCBCSession` from the ServerHello to the ServerHelloDone, and
-- the key exchange.
use tlsscan.Base.{ℕ, zero, suc, ◌+◌, [], ◌∷◌, ◌++◌, Option, none, some, length, ◌==◌, if◌then◌else◌}
use tlsscan.Wire.{Bytes, byte, put16}
use tlsscan.Net.{Io, ◌>>=◌, ◌>>◌, pure}
use tlsscan.Net.Full.{flat}
use tlsscan.Cbc.{CbcCipherParams, params_for_suite}
use tlsscan.Parse.{parse_server_hello_suite, parse_ecdhe_server_key_exchange, parse_leaf_rsa_key}
use tlsscan.Probe.{handshake_server_hello}
use tlsscan.Session.{Library, RsaPublicKey, need, need_true, parsed, abandon}
use tlsscan.Session.Reader.{Next, next}

abbrev pub handshake_certificate : ℕ
handshake_certificate = 0x0b

abbrev pub handshake_server_key_exchange : ℕ
handshake_server_key_exchange = 0x0c

abbrev pub handshake_server_hello_done : ℕ
handshake_server_hello_done = 0x0e

-- `premaster`, the body of the ClientKeyExchange, the transcript, and the reader's buffer.
pub record KeyExchange : Type 0 where
  pub premaster : Bytes
  pub body : Bytes
  pub transcript : Bytes
  pub buf : Bytes

-- What the rest of the handshake needs of the server's flight.
pub record Flight : Type 0 where
  pub params : CbcCipherParams
  pub server_random : Bytes
  pub premaster : Bytes
  pub body : Bytes
  pub transcript : Bytes

-- `ecdhCurve`: the curves of crypto/ecdh by their ids.
abbrev pub ecdh_curve : ℕ → Option ℕ
ecdh_curve id =
    if id == 0x001d
    then some id
    else if id == 0x0017
    then some id
    else if id == 0x0018
    then some id
    else if id == 0x0019
    then some id
    else none

abbrev pub skipped : (Bytes → Bytes → Io Bytes) → Bytes → Next → Io Bytes
skipped go transcript n =
    if n.kind == handshake_server_hello_done
    then pure (transcript ++ n.msg)
    else go (transcript ++ n.msg) n.buf

module _ (lib : Library) where
  -- The premaster secret and the body, once the curve and the server's point are known.
  unfoldable pub ecdhe_secret : ℕ × Bytes → Option (Bytes × Bytes)
  ecdhe_secret (curve_id, server_point) = elim (ecdh_curve curve_id) [
    | none ↦ none
    | some curve ↦ elim (lib.generate_key curve) [
      | none ↦ none
      | some priv ↦ elim (lib.new_public_key curve server_point) [
        | none ↦ none
        | some srv_pub ↦ elim (lib.ecdh curve priv srv_pub) [
          | none ↦ none
          | some shared ↦
              let my_point = lib.public_bytes curve priv in
              some (shared, byte (length my_point) ∷ my_point)
        ]
      ]
    ]
  ]

  -- The 48 bytes 03 03 and 46 random ones, encrypted under the key of the certificate.
  unfoldable pub rsa_secret : Option RsaPublicKey → Option (Bytes × Bytes)
  rsa_secret none = none
  rsa_secret (some key) = elim (lib.crypto.random 46) [
    | none ↦ none
    | some r ↦
        let pms = 0x03 ∷ 0x03 ∷ r in
        elim (lib.encrypt_pkcs1 key pms) [
          | none ↦ none
          | some enc ↦ some (pms, put16 (length enc) ++ enc)
        ]
  ]

  abbrev pub exchanged : Bytes → Bytes → Bytes × Bytes → KeyExchange
  exchanged transcript buf (premaster, body) = record {
    premaster = premaster;
    body = body;
    transcript = transcript;
    buf = buf;
  }

  abbrev pub agreed : Bytes → Bytes → Bytes × Bytes → Io KeyExchange
  agreed transcript buf secret = pure (exchanged transcript buf secret)

  abbrev pub point_known : Bytes → Next → ℕ × Bytes → Io KeyExchange
  point_known transcript ske point =
      need (ecdhe_secret point) >>= agreed (transcript ++ ske.msg) ske.buf

  abbrev pub ske_known : Bytes → Next → Io KeyExchange
  ske_known transcript ske =
      need (parsed (parse_ecdhe_server_key_exchange ske.msg)) >>= point_known transcript ske

  abbrev pub ske_read : Bytes → Next → Io KeyExchange
  ske_read transcript ske =
      need_true (ske.kind == handshake_server_key_exchange) >> ske_known transcript ske

  unfoldable pub ecdhe_exchange : Bytes → Bytes → Io KeyExchange
  ecdhe_exchange transcript buf = next buf >>= ske_read transcript

  unfoldable pub rsa_exchange : Option RsaPublicKey → Bytes → Bytes → Io KeyExchange
  rsa_exchange rsa_pub transcript buf = need (rsa_secret rsa_pub) >>= agreed transcript buf

  -- The loop up to the ServerHelloDone; messages of any other type are passed over.
  unfoldable pub skip_loop : ℕ → Bytes → Bytes → Io Bytes
  skip_loop zero transcript buf = abandon
  skip_loop (suc fuel) transcript buf = next buf >>= skipped (skip_loop fuel) transcript

  -- Each round uses up a message of four bytes at least.
  unfoldable pub skip_to_done : Bytes → Bytes → Io Bytes
  skip_to_done transcript buf c =
      skip_loop (length buf + length (flat c.inbound) + 1) transcript buf c

  abbrev pub exchange : CbcCipherParams → Bytes → Next → Io KeyExchange
  exchange params transcript cert =
      let rsa_pub = parsed (parse_leaf_rsa_key lib.rsa_key cert.msg) in
      if params.ecdhe
      then ecdhe_exchange (transcript ++ cert.msg) cert.buf
      else rsa_exchange rsa_pub (transcript ++ cert.msg) cert.buf

  abbrev pub flight_done : CbcCipherParams → Bytes → Bytes × Bytes → Bytes → Io Flight
  flight_done params server_random (premaster, body) whole = pure (record {
    params = params;
    server_random = server_random;
    premaster = premaster;
    body = body;
    transcript = whole;
  })

  abbrev pub exchange_done : CbcCipherParams → Bytes → KeyExchange → Io Flight
  exchange_done params server_random kx =
      skip_to_done kx.transcript kx.buf >>= flight_done params server_random (kx.premaster, kx.body)

  abbrev pub cert_known : CbcCipherParams → Bytes → Bytes → Next → Io Flight
  cert_known params server_random transcript cert =
      exchange params transcript cert >>= exchange_done params server_random

  abbrev pub cert_read : CbcCipherParams → Bytes → Bytes → Next → Io Flight
  cert_read params server_random transcript cert =
      need_true (cert.kind == handshake_certificate)
      >> cert_known params server_random transcript cert

  abbrev pub params_known : Bytes → Next → Bytes → CbcCipherParams → Io Flight
  params_known transcript sh server_random params =
      next sh.buf >>= cert_read params server_random (transcript ++ sh.msg)

  abbrev pub suite_chosen : Bytes → Next → ℕ × Bytes → Io Flight
  suite_chosen transcript sh chosen =
      need (params_for_suite chosen.0) >>= params_known transcript sh chosen.1

  abbrev pub hello_known : Bytes → Next → Io Flight
  hello_known transcript sh =
      need (parsed (parse_server_hello_suite sh.msg)) >>= suite_chosen transcript sh

  abbrev pub hello_read : Bytes → Next → Io Flight
  hello_read transcript sh =
      need_true (sh.kind == handshake_server_hello) >> hello_known transcript sh

  unfoldable pub read_flight : Bytes → Io Flight
  read_flight transcript = next [] >>= hello_read transcript

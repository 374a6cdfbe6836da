-- ===== src/Session.antt =====
-- internal/handshake/cbc.go: the handshake that ends in a CBC session, as `establishCBCSession`
-- drives it. What it calls of the Go library beside `Crypto` is the record `Library`.
pub mod Reader
pub mod Flight
pub mod Keys
pub mod Finish
pub mod Messages
pub mod Fuel
pub mod Pending
pub mod Received
pub mod Flown
pub mod Acceptance
pub mod Rounds
pub mod Verdict
pub mod Establish
pub mod Taken
pub mod Server
pub mod Crafted
pub mod Receives
pub mod Blind
pub mod Yields
pub mod Ready
pub mod Choice
pub mod Invariant
use tlsscan.Base.{ℕ, Bool, List, Option, true, false, none, some}
use tlsscan.Wire.{Bytes}
use tlsscan.Net.{Conn, NetError, Io, Result, ok, err, fail, pure, write}
use tlsscan.Cbc.{Crypto}

pub record RsaPublicKey : Type 0 where
  pub n : ℕ
  pub e : ℕ

-- `hmac_sha256 key message`; `rsa_key der` is `x509.ParseCertificate` with the assertion that the
-- key is an RSA key; `encrypt_pkcs1` is `rsa.EncryptPKCS1v15`. Of crypto/ecdh, by the id of a curve:
-- `generate_key` gives a private key, `public_bytes` its point, `new_public_key` accepts a point or
-- not, `ecdh` is the shared secret.
pub record Library : Type 0 where
  pub crypto : Crypto
  pub hmac_sha256 : Bytes → Bytes → Bytes
  pub sha256 : Bytes → Bytes
  pub rsa_key : Bytes → Option RsaPublicKey
  pub encrypt_pkcs1 : RsaPublicKey → Bytes → Option Bytes
  pub generate_key : ℕ → Option Bytes
  pub public_bytes : ℕ → Bytes → Bytes
  pub new_public_key : ℕ → Bytes → Option Bytes
  pub ecdh : ℕ → Bytes → Bytes → Option Bytes

-- `return nil`: the connection is given up.
abbrev pub given_up : NetError
given_up = record { timeout = false; message = List.[] }

abbrev pub abandon : {A : Type 0} → Io A
abandon = fail given_up

-- `if err != nil { return nil }` after a call of the library or of a parser.
abbrev pub need : {A : Type 0} → Option A → Io A
need none = abandon
need (some a) = pure a

abbrev pub need_true : Bool → Io (Unit {0})
need_true true = pure tt
need_true false = abandon

-- A parser's result, where a panic is `none` too.
abbrev pub parsed : {A : Type 0} → Option (Option A) → Option A
parsed none = none
parsed (some r) = r

abbrev pub sent_or_not : Bool × Conn → Result (Unit {0}) × Conn
sent_or_not (true, c) = (ok tt, c)
sent_or_not (false, c) = (err given_up, c)

-- `conn.Write(b)`, and `return nil` if it fails.
abbrev pub send : Bytes → Io (Unit {0})
send b c = sent_or_not (write b c)

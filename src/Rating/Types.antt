-- ===== src/Rating/Types.antt =====
-- pkg/tlsscan/types.go: the data that a scan produces. Go's strings that take a few fixed values
-- are enumerations; a name or a message is the list of its bytes.
use tlsscan.Base.{ℕ, Bool, List}
use tlsscan.Base.Int.{ℤ}

pub data Grade : Type 0 where
  a_plus a b c d e f t r : Grade

-- The values that `analyseCertificate` gives to `KeyType`, and the empty string of a result without
-- a certificate.
pub data KeyType : Type 0 where
  rsa ecdsa unknown unset : KeyType

pub record Protocols : Type 0 where
  pub ssl2 : Bool
  pub ssl3 : Bool
  pub tls10 : Bool
  pub tls11 : Bool
  pub tls12 : Bool
  pub tls13 : Bool
  pub alpn : List (List ℕ)
  pub http2 : Bool

-- Bit lengths are never negative. `NotBefore` and `NotAfter` are instants, counted in any unit.
pub record Certificate : Type 0 where
  pub valid : Bool
  pub subject : List ℕ
  pub issuer : List ℕ
  pub not_before : ℕ
  pub not_after : ℕ
  pub days_to_expiry : ℤ
  pub key_type : KeyType
  pub key_bits : ℕ
  pub signature_algo : List ℕ
  pub chain_complete : Bool
  pub hostname_match : Bool
  pub self_signed : Bool
  pub distrusted : Bool
  pub sans : List (List ℕ)

pub record CipherSummary : Type 0 where
  pub strong : List (List ℕ)
  pub weak : List (List ℕ)
  pub insecure : List (List ℕ)
  pub server_preferred : Bool

pub record Vulnerabilities : Type 0 where
  pub heartbleed : Bool
  pub poodle : Bool
  pub robot : Bool
  pub sweet32 : Bool
  pub drown : Bool
  pub freak : Bool
  pub logjam : Bool
  pub beast : Bool
  pub golden_doodle : Bool
  pub zombie_poodle : Bool
  pub sleeping_poodle : Bool
  pub zero_length_padding_cve : Bool
  pub insecure_renegotiation : Bool
  pub tls_fallback_scsv : Bool

pub record RatingBreakdown : Type 0 where
  pub protocol_score : ℕ
  pub key_exchange_score : ℕ
  pub cipher_score : ℕ
  pub numeric : ℕ

-- The entries of `GradeCaps`.
pub data Cap : Type 0 where
  certificate_trust critical_vulnerability ssl2_enabled ssl3_enabled : Cap
  no_forward_secrecy insecure_cipher export_cipher : Cap

-- The part of `Result` that `rate` reads or sets.
pub record ScanResult : Type 0 where
  pub host : List ℕ
  pub port : ℕ
  pub protocols : Protocols
  pub certificate : Certificate
  pub ciphers : CipherSummary
  pub forward_secrecy : Bool
  pub vulnerabilities : Vulnerabilities
  pub rating : RatingBreakdown
  pub grade : Grade
  pub grade_caps : List Cap
  pub errors : List (List ℕ)

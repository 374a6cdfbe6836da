-- ===== src/Scan/Handshake.antt =====
-- pkg/tlsscan/scanner.go: `handshakeAt` and the loop of `probeProtocols`; pkg/tlsscan/ciphers.go:
-- `cipherAccepted`. A dial and a handshake of crypto/tls are a function of the configuration: no
-- two handshakes of a scan have the same one.
use tlsscan.Base.{Option, ℕ, Bool, true, false, List, [], ◌∷◌, ◌==◌}
use tlsscan.Wire.Headers.{version_tls10, version_tls11, version_tls12}
use tlsscan.Net.{Peer, Result, ok, err}
use tlsscan.Probe.{probe_ssl3, probe_ssl2}
use tlsscan.Rating.Types.{Protocols}

abbrev pub version_tls13 : ℕ
version_tls13 = 0x0304

-- The fields of `tls.Config` that differ; an empty list is the default.
pub record TlsConfig : Type 0 where
  pub min_version : ℕ
  pub max_version : ℕ
  pub suites : List ℕ
  pub next_protos : List (List ℕ)

-- `PublicKey`, with `N.BitLen()` or the bit size of the curve.
pub data PublicKey : Type 0 where
  rsa_public_key ecdsa_public_key : ℕ → PublicKey
  other_public_key : PublicKey

-- The fields of an `x509.Certificate` that are read, and `VerifyHostname`. The
-- algorithm is its `String()`.
pub record X509 : Type 0 where
  pub subject : List ℕ
  pub issuer : List ℕ
  pub not_before : ℕ
  pub not_after : ℕ
  pub signature_algorithm : List ℕ
  pub dns_names : List (List ℕ)
  pub public_key : PublicKey
  pub names_host : List ℕ → Bool

-- `ConnectionState` after a handshake.
pub record TlsState : Type 0 where
  pub version : ℕ
  pub certificates : List X509
  pub protocol : List ℕ

abbrev pub pinned : ℕ → List ℕ → TlsConfig
pinned v suites = record { min_version = v; max_version = v; suites = suites; next_protos = [] }

abbrev has_version : ℕ → Result TlsState → Bool
has_version v (ok state) = state.version == v
has_version v (err e) = false

abbrev succeeded : Result TlsState → Bool
succeeded (ok state) = true
succeeded (err e) = false

module _ (tls : TlsConfig → Result TlsState) where
  unfoldable pub handshake_at : ℕ → Bool
  handshake_at v = has_version v (tls (pinned v []))

  unfoldable pub cipher_accepted : ℕ → Bool
  cipher_accepted suite = succeeded (tls (pinned version_tls12 (suite ∷ [])))

  -- `ssl3` and `ssl2` are the targets of the two raw probes.
  unfoldable pub probe_protocols : Option Peer → Option Peer → Protocols
  probe_protocols ssl3 ssl2 = record {
    ssl2 = probe_ssl2 ssl2;
    ssl3 = probe_ssl3 ssl3;
    tls10 = handshake_at version_tls10;
    tls11 = handshake_at version_tls11;
    tls12 = handshake_at version_tls12;
    tls13 = handshake_at version_tls13;
    alpn = [];
    http2 = false;
  }

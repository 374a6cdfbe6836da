-- ===== src/Scan/Certificate.antt =====
-- pkg/tlsscan/scanner.go: `fetchCertificate`, `analyseCertificate`, `verifyChainComplete` and
-- `contains`. `verifies leaf intermediates` is `Verify` of crypto/x509 under the system's roots.
use tlsscan.Base.{
  ℕ, ◌+◌, Bool, true, false, ◌&&◌, ◌||◌, List, [], ◌∷◌, ltb, leb, ◌==◌, if◌then◌else◌, map,
}
use tlsscan.Base.Int.{ℤ}
use tlsscan.Base.Text.{codes, contains_substr}
use tlsscan.Wire.Headers.{version_tls10, version_tls12}
use tlsscan.Net.{NetError, Result, ok, err}
use tlsscan.Rating.Types.{KeyType, rsa, ecdsa, unknown, Certificate}
use tlsscan.Scan.Handshake.{
  TlsConfig, PublicKey, rsa_public_key, ecdsa_public_key, other_public_key, X509, TlsState,
  version_tls13,
}

-- The chain, leaf first, and the protocols of ALPN.
pub record Fetched : Type 0 where
  pub leaf : X509
  pub intermediates : List X509
  pub alpn : List (List ℕ)

abbrev no_peer_certificate : NetError
no_peer_certificate = record { timeout = false; message = codes "no peer certificate" }

abbrev negotiated : List ℕ → List (List ℕ)
negotiated [] = []
negotiated (b ∷ bs) = (b ∷ bs) ∷ []

abbrev chain_of : List X509 → List ℕ → Result Fetched
chain_of [] protocol = err no_peer_certificate
chain_of (leaf ∷ rest) protocol =
    ok (record { leaf = leaf; intermediates = rest; alpn = negotiated protocol })

abbrev fetched : Result TlsState → Result Fetched
fetched (ok state) = chain_of state.certificates state.protocol
fetched (err e) = err e

abbrev pub up_to : ℕ → TlsConfig
up_to max = record {
  min_version = version_tls10;
  max_version = max;
  suites = [];
  next_protos = codes "h2" ∷ codes "http/1.1" ∷ [];
}

abbrev pub or_retry : Result Fetched → Result Fetched → Result Fetched
or_retry (ok f) again = ok f
or_retry (err e) again = again

module _ (tls : TlsConfig → Result TlsState) where
  unfoldable pub fetch_certificate_at : ℕ → Result Fetched
  fetch_certificate_at max = fetched (tls (up_to max))

  -- One retry, without TLS 1.3.
  unfoldable pub fetch_certificate : Result Fetched
  fetch_certificate =
      or_retry (fetch_certificate_at version_tls13) (fetch_certificate_at version_tls12)

abbrev pub same_text : List ℕ → List ℕ → Bool
same_text [] [] = true
same_text (a ∷ s) (b ∷ v) = (a == b) && same_text s v
same_text _ _ = false

unfoldable pub contains : List (List ℕ) → List ℕ → Bool
contains [] v = false
contains (x ∷ s) v = same_text x v || contains s v

-- `strings.ToLower` on ASCII, as every name of an algorithm is.
abbrev pub lower_byte : ℕ → ℕ
lower_byte b = if leb 65 b && leb b 90 then b + 32 else b

abbrev pub key_of : PublicKey → KeyType × ℕ
key_of (rsa_public_key bits) = (rsa, bits)
key_of (ecdsa_public_key bits) = (ecdsa, bits)
key_of other_public_key = (unknown, 0)

-- What the analysis takes of its surroundings: the clock, the days until an instant (`time.Until`
-- and the division of its hours, cut to an integer), and the verification of a chain.
pub record Trust : Type 0 where
  pub now : ℕ
  pub days_until : ℕ → ℤ
  pub verifies : X509 → List X509 → Bool

module _ (trust : Trust) where
  unfoldable pub verify_chain_complete : List X509 → Bool
  verify_chain_complete [] = false
  verify_chain_complete (leaf ∷ intermediates) = trust.verifies leaf intermediates

  unfoldable pub analyse_certificate : X509 → List X509 → List ℕ → Certificate
  analyse_certificate cert intermediates host = record {
    valid = ltb cert.not_before trust.now && ltb trust.now cert.not_after;
    subject = cert.subject;
    issuer = cert.issuer;
    not_before = cert.not_before;
    not_after = cert.not_after;
    days_to_expiry = trust.days_until cert.not_after;
    key_type = (key_of cert.public_key).0;
    key_bits = (key_of cert.public_key).1;
    signature_algo = cert.signature_algorithm;
    chain_complete = verify_chain_complete (cert ∷ intermediates);
    hostname_match = cert.names_host host;
    self_signed = same_text cert.issuer cert.subject;
    distrusted = contains_substr (map lower_byte cert.signature_algorithm) (codes "sha1");
    sans = cert.dns_names;
  }

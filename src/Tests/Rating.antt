-- ===== src/Tests/Rating.antt =====
-- rating.go on concrete results of a scan.
use tlsscan.Base.{true, false, [], ◌∷◌, ◌≡◌, refl}
use tlsscan.Base.Int.{pos}
use tlsscan.Base.Text.{codes}
use tlsscan.Rating.Types.{
  Grade, Protocols, Certificate, CipherSummary, Vulnerabilities, ScanResult, rsa, Cap,
}
use tlsscan.Rating.Score.{
  protocol_score, key_exchange_score, cipher_score, numeric_to_grade, breakdown,
}
use tlsscan.Rating.Caps.{
  cap_at, cap_trust, cap_critical, cap_ssl, cap_forward_secrecy, cap_insecure, cap_export, upgrade,
  capped, rate,
}
use tlsscan.Rating.Verdict.{base_grade}
use tlsscan.Rating.Signs.{signs, some_true, reports}
use tlsscan.Rating.Explained.{recomputed, rate_explained}
use tlsscan.Rating.Grades.{excellent, promote, rate_lenient, rate_clean}

abbrev pub modern_protocols : Protocols
modern_protocols = record {
  ssl2 = false;
  ssl3 = false;
  tls10 = false;
  tls11 = false;
  tls12 = true;
  tls13 = true;
  alpn = [];
  http2 = true;
}

abbrev good_certificate : Certificate
good_certificate = record {
  valid = true;
  subject = codes "CN=www.example.com";
  issuer = codes "CN=Example CA";
  not_before = 0;
  not_after = 7776000;
  days_to_expiry = pos 90;
  key_type = rsa;
  key_bits = 4096;
  signature_algo = codes "SHA256-RSA";
  chain_complete = true;
  hostname_match = true;
  self_signed = false;
  distrusted = false;
  sans = [];
}

abbrev strong_ciphers : CipherSummary
strong_ciphers = record {
  strong = codes "ECDHE_RSA_AES_128_GCM" ∷ [];
  weak = [];
  insecure = [];
  server_preferred = false;
}

abbrev no_vulnerabilities : Vulnerabilities
no_vulnerabilities = record {
  heartbleed = false;
  poodle = false;
  robot = false;
  sweet32 = false;
  drown = false;
  freak = false;
  logjam = false;
  beast = false;
  golden_doodle = false;
  zombie_poodle = false;
  sleeping_poodle = false;
  zero_length_padding_cve = false;
  insecure_renegotiation = false;
  tls_fallback_scsv = false;
}

abbrev pub modern : ScanResult
modern = record {
  host = codes "www.example.com";
  port = 443;
  protocols = modern_protocols;
  certificate = good_certificate;
  ciphers = strong_ciphers;
  forward_secrecy = true;
  vulnerabilities = no_vulnerabilities;
  rating = record { protocol_score = 0; key_exchange_score = 0; cipher_score = 0; numeric = 0 };
  grade = Grade.t;
  grade_caps = [];
  errors = [];
}

-- A server with Heartbleed, a certificate that nobody trusts and no forward secrecy.
abbrev broken : ScanResult
broken = record modern {
  certificate = record good_certificate { valid = false };
  vulnerabilities = record no_vulnerabilities { heartbleed = true };
  forward_secrecy = false;
}

rate-modern : (rate modern).1 ≡ Grade.a_plus
unfolding rate capped breakdown protocol_score key_exchange_score cipher_score numeric_to_grade
    cap_at cap_trust cap_critical cap_ssl cap_forward_secrecy cap_insecure cap_export upgrade
rate-modern = refl

rate_lenient_example : (rate broken).1 ≡ Grade.b
rate_lenient_example = rate_lenient broken refl refl

rate_clean_example : (rate modern).1 ≡ Grade.a_plus
unfolding breakdown protocol_score key_exchange_score cipher_score numeric_to_grade
rate_clean_example = rate_clean modern refl refl refl refl

rate_explained_example :
    ((x : Cap) → reports (rate broken).2 x ≡ some_true (signs broken x))
    × ((rate broken).1
        ≡ promote (excellent broken) (recomputed (base_grade broken) (rate broken).2))
rate_explained_example = rate_explained broken

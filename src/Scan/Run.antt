-- ===== src/Scan/Run.antt =====
-- pkg/tlsscan/scanner.go: `Scan`. The clock readings of its duration and the ruleset's version are
-- left out; the timeouts are the errors of the other side.
use tlsscan.Base.{
  inr, inl, ◌⊎◌, ℕ, Bool, false, List, [], ◌∷◌, ◌++◌, Option, none, some, ◌==◌, if◌then◌else◌,
}
use tlsscan.Base.Int.{pos}
use tlsscan.Base.Text.{codes}
use tlsscan.Net.{Peer, Result, ok, err}
use tlsscan.Rating.Types.{
  Grade, unset, Protocols, Certificate, Vulnerabilities, RatingBreakdown, ScanResult,
}
use tlsscan.Rating.Caps.{rate}
use tlsscan.Scan.Ciphers.{CatalogEntry, probe_ciphers}
use tlsscan.Scan.Guard.{Names, GuardError, guard_target}
use tlsscan.Scan.Handshake.{TlsConfig, TlsState, cipher_accepted, probe_protocols}
use tlsscan.Scan.Certificate.{Fetched, Trust, fetch_certificate, contains, analyse_certificate}
use tlsscan.Scan.Vulns.{Targets, probe_vulnerabilities}

pub record Options : Type 0 where
  pub host : List ℕ
  pub port : ℕ
  pub check_vulns : Bool

-- What a scan meets: names, handshakes, the targets of the raw probes, the order in which Go goes
-- through the map of suites, and the trust in certificates.
pub record Environment : Type 0 where
  pub names : Names
  pub tls : TlsConfig → Result TlsState
  pub ssl3 : Option Peer
  pub ssl2 : Option Peer
  pub order : List CatalogEntry
  pub trust : Trust
  pub targets : Targets

-- Zero values.
abbrev pub no_certificate : Certificate
no_certificate = record {
  valid = false;
  subject = [];
  issuer = [];
  not_before = 0;
  not_after = 0;
  days_to_expiry = pos 0;
  key_type = unset;
  key_bits = 0;
  signature_algo = [];
  chain_complete = false;
  hostname_match = false;
  self_signed = false;
  distrusted = false;
  sans = [];
}

abbrev pub not_checked : Vulnerabilities
not_checked = record {
  heartbleed = false;
  poodle = false;
  robot = false;
  sweet32 = false;
  drown = false;
  freak = false;
  logjam = false;
  beast = false;
  golden_doodle = false;
  zombie_poodle = false;
  sleeping_poodle = false;
  zero_length_padding_cve = false;
  insecure_renegotiation = false;
  tls_fallback_scsv = false;
}

abbrev not_rated : RatingBreakdown
not_rated = record { protocol_score = 0; key_exchange_score = 0; cipher_score = 0; numeric = 0 }

abbrev pub with_default : ℕ → ℕ
with_default port = if port == 0 then 443 else port

-- Step 2: the certificate, the protocols with ALPN, and the errors.
abbrev pub Evidence : Type 0
Evidence = Protocols × Certificate × List (List ℕ)

module _ (env : Environment) (options : Options) where
  abbrev pub with_certificate : Protocols → Result Fetched → Evidence
  with_certificate p (err e) = (p, no_certificate, (codes "certificate: " ++ e.message) ∷ [])
  with_certificate p (ok f) = (
    record p { alpn = f.alpn; http2 = contains f.alpn (codes "h2") },
    analyse_certificate env.trust f.leaf f.intermediates options.host,
    [],
  )

  abbrev pub evidence : Evidence
  evidence =
      with_certificate (probe_protocols env.tls env.ssl3 env.ssl2) (fetch_certificate env.tls)

  -- Steps 3 and 4: everything that the rating reads.
  unfoldable pub collected : ScanResult
  collected =
      let (protocols, certificate, errors) = evidence in
      let (ciphers, forward_secrecy) = probe_ciphers (cipher_accepted env.tls) env.order in
      record {
        host = options.host;
        port = with_default options.port;
        protocols = protocols;
        certificate = certificate;
        ciphers = ciphers;
        forward_secrecy = forward_secrecy;
        vulnerabilities =
            if options.check_vulns
            then probe_vulnerabilities env.targets options.host protocols ciphers
            else not_checked;
        rating = not_rated;
        grade = Grade.r;
        grade_caps = [];
        errors = errors;
      }

  abbrev pub rated : ScanResult → ScanResult
  rated res =
      let (rating, grade, caps) = rate res in
      record res { rating = rating; grade = grade; grade_caps = caps }

  abbrev pub scan_after : Option GuardError → GuardError ⊎ ScanResult
  scan_after (some e) = inl e
  scan_after none = inr (rated collected)

  unfoldable pub scan : GuardError ⊎ ScanResult
  scan = scan_after (guard_target env.names options.host)

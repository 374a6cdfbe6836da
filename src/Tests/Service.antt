-- ===== src/Tests/Service.antt =====
-- guard.go, scanner.go and cmd/headerforge-tls/main.go on concrete targets.
use tlsscan.Base.{
  some, if◌then◌else◌, ◌==◌, ℕ, true, false, List, [], ◌∷◌, none, ◌≡◌, ◌↔◌, refl, arith, inr,
}
use tlsscan.Base.Int.{pos}
use tlsscan.Base.Text.{has_prefix, contains_substr, codes}
use tlsscan.Probe.{probe_ssl3, probe_ssl2, ask}
use tlsscan.Net.{dial, NetError, Result, ok, err}
use tlsscan.Rating.Types.{Grade, ScanResult}
use tlsscan.Rating.Score.{
  breakdown, protocol_score, key_exchange_score, cipher_score, numeric_to_grade,
}
use tlsscan.Rating.Caps.{
  upgrade, cap_export, cap_insecure, cap_forward_secrecy, cap_ssl, cap_critical, cap_trust, capped,
  rate,
}
use tlsscan.Scan.Address.{mapped, to4, is_blocked_ip}
use tlsscan.Scan.Ranges.{address, blocked_ranges, lies_in_any, is_blocked_ip-lies_in_any}
use tlsscan.Scan.Guard.{Names, guard_addresses, guard_target}
use tlsscan.Scan.Permitted.{Permitted, guard_target_iff}
use tlsscan.Scan.Ciphers.{enumerate, probe_ciphers, cipher_catalog}
use tlsscan.Scan.Handshake.{
  probe_protocols, TlsState, X509, rsa_public_key, cipher_accepted, handshake_at,
}
use tlsscan.Scan.Certificate.{analyse_certificate, fetch_certificate, fetch_certificate_at}
use tlsscan.Scan.Vulns.{Targets}
use tlsscan.Scan.Run.{Environment, Options, collected, rated, scan}
use tlsscan.Scan.Graded.{RefusesAll, scan_runs, scan-RefusesAll}
use tlsscan.Scan.Excellent.{IsExcellent, scan-IsExcellent}
use tlsscan.Service.{ScanRequest, handle_scan}
use tlsscan.Service.Answers.{IsServed, handle_scan_iff}
use tlsscan.Tests.Session.{lib}

-- The carrier-grade range ends at 100.127.255.255.
is_blocked_ip-lies_in_any_example :
    (is_blocked_ip (100 ∷ 127 ∷ 255 ∷ 255 ∷ [])
      ≡ lies_in_any (address 100 127 255 255) blocked_ranges)
    × (is_blocked_ip (mapped (100 ∷ 127 ∷ 255 ∷ 255 ∷ []))
        ≡ lies_in_any (address 100 127 255 255) blocked_ranges)
is_blocked_ip-lies_in_any_example =
    is_blocked_ip-lies_in_any 100 127 255 255 (omega arith) (omega arith) (omega arith)
      (omega arith)

-- Every name resolves to 93.184.216.34.
abbrev names : Names
names = record {
  normalize = λ host. host;
  parse_ip = λ host. none;
  lookup_ip = λ host. ok ((93 ∷ 184 ∷ 216 ∷ 34 ∷ []) ∷ []);
}

guard_target_iff_example :
    (guard_target names (codes "example.com") ≡ none) ↔ Permitted names (codes "example.com")
guard_target_iff_example = guard_target_iff names (codes "example.com")

abbrev unreachable : NetError
unreachable = record { timeout = true; message = codes "i/o timeout" }

abbrev pub targets : Targets
targets = record {
  heartbleed_target = none;
  export_rsa = none;
  export_dh = none;
  renegotiation = none;
  fallback = none;
  robot = λ w. record {
    library = record {
      big = record { bit_len = λ n. 0; set_bytes = λ b. 0; to_bytes = λ n. []; exp = λ m e n. 0 };
      rsa_key = λ der. none;
      random = λ n. none;
    };
    target = none;
  };
  cbc = λ w. record { library = lib; target = none };
}

-- A host that never answers.
abbrev silent_host : Environment
silent_host = record {
  names = names;
  tls = λ config. err unreachable;
  ssl3 = none;
  ssl2 = none;
  order = cipher_catalog;
  trust = record { now = 100; days_until = λ t. pos 90; verifies = λ leaf rest. true };
  targets = targets;
}

abbrev options : Options
options = record { host = codes "example.com"; port = 0; check_vulns = false }

passes : guard_target names (codes "example.com") ≡ none
unfolding guard_target guard_addresses is_blocked_ip to4
passes = refl

refuses_all : RefusesAll (cipher_accepted silent_host.tls) cipher_catalog
unfolding cipher_accepted
refuses_all =
    (refl, (refl, (refl, (refl, (refl, (refl, (refl, (refl, (refl, (refl, (refl, tt)))))))))))

scan-RefusesAll_example :
    (r : ScanResult) × (scan silent_host options ≡ inr r) × (r.grade ≡ Grade.b)
scan-RefusesAll_example = scan-RefusesAll silent_host options passes refuses_all

abbrev posted : ScanRequest
posted = record { host = codes "example.com"; port = 443; timeout_ms = pos 0; check_vulns = false }

handle_scan_iff_example :
    ((handle_scan (λ t. silent_host) (codes "POST") (some posted)).status ≡ 200)
    ↔ IsServed (λ t. silent_host) (codes "POST") (some posted)
handle_scan_iff_example = handle_scan_iff (λ t. silent_host) (codes "POST") (some posted)

abbrev leaf : X509
leaf = record {
  subject = codes "example.com";
  issuer = codes "Example CA";
  not_before = 1;
  not_after = 1000;
  signature_algorithm = codes "SHA256-RSA";
  dns_names = codes "example.com" ∷ [];
  public_key = rsa_public_key 4096;
  names_host = λ host. true;
}

abbrev state_at : ℕ → TlsState
state_at v = record { version = v; certificates = leaf ∷ []; protocol = codes "h2" }

-- It takes every version, and in TLS 1.2 the suite 0xc02f alone.
abbrev takes : List ℕ → ℕ → Result TlsState
takes [] v = ok (state_at v)
takes (s ∷ ss) v = if s == 0xc02f then ok (state_at v) else err unreachable

abbrev pub modern_host : Environment
modern_host = record silent_host { tls = λ config. takes config.suites config.max_version }

modern-a_plus : (rated modern_host options (collected modern_host options)).grade ≡ Grade.a_plus
unfolding collected probe_protocols breakdown handshake_at cipher_accepted fetch_certificate
    fetch_certificate_at analyse_certificate probe_ciphers enumerate rate capped protocol_score
    key_exchange_score cipher_score numeric_to_grade cap_trust cap_critical cap_ssl
    cap_forward_secrecy cap_insecure cap_export upgrade contains_substr has_prefix probe_ssl3
    probe_ssl2 ask dial
modern-a_plus = refl

modern_scanned :
    scan modern_host options ≡ inr (rated modern_host options (collected modern_host options))
modern_scanned = scan_runs modern_host options passes

scan-IsExcellent_example : IsExcellent modern_host options
scan-IsExcellent_example =
    scan-IsExcellent modern_host options (rated modern_host options (collected modern_host options))
      modern_scanned modern-a_plus

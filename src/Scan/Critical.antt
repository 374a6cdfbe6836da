-- ===== src/Scan/Critical.antt =====
-- pkg/tlsscan/scanner.go: a scan that reports a critical vulnerability.
use tlsscan.Base.{Bool, true, false, not, ◌&&◌, ◌||◌, none, inr, ◌≡◌, ◌∙◌, refl}
use tlsscan.Rating.Types.{Grade, ScanResult, Vulnerabilities}
use tlsscan.Rating.Score.{nonempty}
use tlsscan.Rating.Caps.{rate, critical}
use tlsscan.Rating.Grades.{rate_clean}
use tlsscan.Scan.Guard.{guard_target}
use tlsscan.Scan.Run.{Environment, Options, collected, rated, scan}
use tlsscan.Scan.Graded.{scan_runs}

-- Forward secrecy, and nothing for which a cap of B or C is noted.
pub record IsClean (r : ScanResult) : Type 0 where
  pub forward : r.forward_secrecy ≡ true
  pub no_insecure : nonempty r.ciphers.insecure ≡ false
  pub no_export : (r.vulnerabilities.freak || r.vulnerabilities.logjam) ≡ false
  pub no_ssl3 : (r.protocols.ssl3 && not r.protocols.ssl2) ≡ false

rate-IsClean :
    (r : ScanResult) → IsClean r → critical r.vulnerabilities ≡ true → (rate r).1 ≡ Grade.f
rate-IsClean r clean h =
    rate_clean r clean.forward clean.no_insecure clean.no_export clean.no_ssl3 ∙ rw h refl

-- A permitted scan that finds a vulnerability which counts as critical reports it, and ends in
-- grade F where nothing is noted for a cap of B or C.
pub scan-critical :
    (env : Environment) (options : Options) (flaw : Vulnerabilities → Bool)
    → guard_target env.names options.host ≡ none
    → ((v : Vulnerabilities) → flaw v ≡ true → critical v ≡ true)
    → flaw (collected env options).vulnerabilities ≡ true
    → IsClean (collected env options)
    → (r : ScanResult) × (scan env options ≡ inr r)
      × (flaw r.vulnerabilities ≡ true)
      × (r.grade ≡ Grade.f)
scan-critical env options flaw permitted is_critical found clean = (
  rated env options (collected env options),
  scan_runs env options permitted,
  found,
  rate-IsClean (collected env options) clean
      (is_critical (collected env options).vulnerabilities found),
)

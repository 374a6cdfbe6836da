-- ===== src/Rating/Grades.antt =====
-- pkg/tlsscan/rating.go: the final grade, caps and upgrade included.
use native.Mathlib.Nat.{le_trans}
use tlsscan.Base.{
  inl, inr, Bool-cases, ◌≢◌, ◌≤◌, ℕ, not, Bool, true, false, ◌&&◌, ◌||◌, length, ◌==◌,
  if◌then◌else◌, ◌≡◌, ◌∙◌, arith,
}
use tlsscan.Base.Int.{above}
use tlsscan.Rating.Bounds.{key_exchange_score-le, cipher_score-le}
use tlsscan.Rating.Types.{Protocols, Certificate, CipherSummary, Grade, ScanResult}
use tlsscan.Rating.Score.{protocol_score, numeric_to_grade, breakdown, nonempty}
use tlsscan.Rating.Caps.{grade_rank, cap_at, Graded, untrusted, critical, upgrade, capped, rate}
use tlsscan.Rating.Verdict.{
  failing, base_grade, trust_grade, critical_grade, ssl_grade, forward_secrecy_grade,
  insecure_grade, export_grade,
}

-- The conditions of the caps: trust, critical, SSLv2, SSLv3, forward secrecy, insecure, export.
unfoldable pub resolve : Bool → Bool → Bool → Bool → Bool → Bool → Bool → Grade → Grade
unfolding cap_at
resolve un cr s2 s3 fs ins ex g₀ =
    let g₁ = if un then Grade.t else g₀ in
    let g₂ = if cr then Grade.f else g₁ in
    let g₃ = if s2 then Grade.f else if s3 then cap_at g₂ Grade.c else g₂ in
    let g₄ = if fs then g₃ else cap_at g₃ Grade.b in
    let g₅ = if ins then cap_at g₄ Grade.c else g₄ in if ex then cap_at g₅ Grade.c else g₅

abbrev pub resolved : ScanResult → Grade
resolved r =
    resolve (untrusted r.certificate) (critical r.vulnerabilities) r.protocols.ssl2 r.protocols.ssl3
      r.forward_secrecy (nonempty r.ciphers.insecure)
      (r.vulnerabilities.freak || r.vulnerabilities.logjam) (base_grade r)

-- What A+ asks of a scan beside the grade A.
abbrev pub excellent : ScanResult → Bool
excellent r =
    r.protocols.tls13
    && (length r.ciphers.weak == 0)
    && (length r.ciphers.insecure == 0)
    && above 30 r.certificate.days_to_expiry

abbrev pub promote : Bool → Grade → Grade
promote ok Grade.a = if ok then Grade.a_plus else Grade.a
promote ok g = g

upgrade_grade : (r : ScanResult) (s : Graded) → (upgrade r s).grade ≡ promote (excellent r) s.grade
unfolding upgrade
upgrade_grade r s = ground arith

pub rate_grade : (r : ScanResult) → (rate r).1 ≡ promote (excellent r) (resolved r)
unfolding rate capped resolve
rate_grade r = simp (
  upgrade_grade, export_grade, insecure_grade, forward_secrecy_grade, ssl_grade, critical_grade,
  trust_grade,
)

cap_at-le : (g k : Grade) → grade_rank (cap_at g k) ≤ grade_rank g
unfolding cap_at
cap_at-le g k = ground arith

promote-le : (ok : Bool) (g : Grade) → grade_rank (promote ok g) ≤ grade_rank g
unfolding grade_rank
promote-le ok g = ground arith

-- Without forward secrecy, a scan with a certificate problem, a critical vulnerability or SSLv2
-- is graded B.
pub rate_lenient :
    (r : ScanResult)
    → r.forward_secrecy ≡ false
    → (untrusted r.certificate || failing r) ≡ true
    → (rate r).1 ≡ Grade.b
unfolding resolve
rate_lenient r fs bad = rate_grade r ∙ ground arith

or_false : (a b c : Bool) → (a || (b || c)) ≡ false → (a ≡ false) × (b ≡ false) × (c ≡ false)
or_false a b c h = ground arith

resolve-le :
    (un cr s2 s3 fs ins ex : Bool) (g : Grade)
    → un ≡ false
    → cr ≡ false
    → s2 ≡ false
    → grade_rank (resolve un cr s2 s3 fs ins ex g) ≤ grade_rank g
unfolding resolve
resolve-le un cr s2 s3 fs ins ex g a b c = ground arith

-- Where there is no certificate problem, no critical vulnerability and no SSLv2, the grade is
-- never worse than the one of the numeric score, whichever ceilings apply.
pub rate_ceilings :
    (r : ScanResult)
    → (untrusted r.certificate || failing r) ≡ false
    → grade_rank (rate r).1 ≤ grade_rank (base_grade r)
rate_ceilings r h =
    let (un, cr, s2) =
      or_false (untrusted r.certificate) (critical r.vulnerabilities) r.protocols.ssl2 h in
    rw (rate_grade r)
      (le_trans (promote-le (excellent r) _) (resolve-le _ _ _ _ _ _ _ (base_grade r) un cr s2))

-- With forward secrecy, no insecure cipher, neither FREAK nor Logjam, and no SSLv3 without
-- SSLv2, the grade is F for a critical vulnerability or SSLv2, else T for a certificate problem,
-- else the grade of the numeric score, with A raised to A+ for an excellent configuration.
pub rate_clean :
    (r : ScanResult)
    → r.forward_secrecy ≡ true
    → nonempty r.ciphers.insecure ≡ false
    → (r.vulnerabilities.freak || r.vulnerabilities.logjam) ≡ false
    → (r.protocols.ssl3 && not r.protocols.ssl2) ≡ false
    → (rate r).1 ≡ (
        if failing r
        then Grade.f
        else if untrusted r.certificate
        then Grade.t
        else promote (excellent r) (base_grade r))
unfolding resolve
rate_clean r fs ins ex s3 = rw (rate_grade r, ins) (ground arith)

resolve_top :
    (un cr s2 s3 fs ins ex : Bool) (g : Grade)
    → resolve un cr s2 s3 fs ins ex g ≡ Grade.a
    → (un ≡ false) × (cr ≡ false) × (s2 ≡ false) × (grade_rank g ≤ 1)
unfolding resolve
resolve_top un cr s2 s3 fs ins ex g h = ground arith

numeric_of_top : (n : ℕ) → grade_rank (numeric_to_grade n) ≤ 1 → 80 ≤ n
unfolding numeric_to_grade grade_rank
numeric_of_top n h = ground arith

numeric_ssl3 :
    (p : Protocols) (c : Certificate) (cs : CipherSummary) (fs : Bool)
    → p.ssl3 ≡ true
    → (breakdown p c cs fs).numeric ≤ 76
unfolding breakdown protocol_score
numeric_ssl3 p c cs fs h = ground (arith, key_exchange_score-le c fs, cipher_score-le cs)

base_grade_ssl3 : (r : ScanResult) → grade_rank (base_grade r) ≤ 1 → r.protocols.ssl3 ≡ false
base_grade_ssl3 r h = elim (Bool-cases r.protocols.ssl3) [
  | inl e ↦
      let low = numeric_ssl3 r.protocols r.certificate r.ciphers r.forward_secrecy e in
      let high = numeric_of_top _ h in absurd (omega arith)
  | inr e ↦ e
]

numeric_to_grade-ne : (n : ℕ) → numeric_to_grade n ≢ Grade.a_plus
unfolding numeric_to_grade
numeric_to_grade-ne n = ground arith

resolve-ne :
    (un cr s2 s3 fs ins ex : Bool) (g : Grade)
    → g ≢ Grade.a_plus
    → resolve un cr s2 s3 fs ins ex g ≢ Grade.a_plus
unfolding resolve
resolve-ne un cr s2 s3 fs ins ex g h = ground arith

promote-a_plus :
    (ok : Bool) (g : Grade)
    → g ≢ Grade.a_plus
    → promote ok g ≡ Grade.a_plus
    → (ok ≡ true) × (g ≡ Grade.a)
promote-a_plus ok g h e = ground arith

excellent_parts :
    (r : ScanResult)
    → excellent r ≡ true
    → (r.protocols.tls13 ≡ true)
      × (length r.ciphers.weak ≡ 0)
      × (length r.ciphers.insecure ≡ 0)
      × (above 30 r.certificate.days_to_expiry ≡ true)
excellent_parts r h = ground arith

-- If a scan is graded A+, the certificate has no trust problem, there is no critical
-- vulnerability and neither SSLv2 nor SSLv3, TLS 1.3 is there, no weak and no insecure cipher
-- is, and the certificate stays valid for more than 30 days.
pub rate_a_plus :
    (r : ScanResult)
    → (rate r).1 ≡ Grade.a_plus
    → (untrusted r.certificate ≡ false)
      × (critical r.vulnerabilities ≡ false)
      × (r.protocols.ssl2 ≡ false)
      × (r.protocols.ssl3 ≡ false)
      × (r.protocols.tls13 ≡ true)
      × (length r.ciphers.weak ≡ 0)
      × (length r.ciphers.insecure ≡ 0)
      × (above 30 r.certificate.days_to_expiry ≡ true)
rate_a_plus r h =
    let top = resolve-ne _ _ _ _ _ _ _ _ (numeric_to_grade-ne _) in
    let (ok, is_a) = promote-a_plus (excellent r) (resolved r) top (rw (rate_grade r) at h) in
    let (un, cr, s2, best) =
      resolve_top (untrusted r.certificate) (critical r.vulnerabilities) r.protocols.ssl2
        r.protocols.ssl3 r.forward_secrecy (nonempty r.ciphers.insecure)
        (r.vulnerabilities.freak || r.vulnerabilities.logjam) (base_grade r) is_a in
    let (t, w, i, d) = excellent_parts r ok in (un, cr, s2, base_grade_ssl3 r best, t, w, i, d)

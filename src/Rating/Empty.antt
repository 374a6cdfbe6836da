-- ===== src/Rating/Empty.antt =====
-- pkg/tlsscan/rating.go: the rating of a scan that found no cipher suite.
use tlsscan.Base.{ℕ, ◌≤◌, ◌<◌, Bool, false, ◌||◌, length, ◌≡◌, ◌∙◌, refl, ap, arith}
use tlsscan.Rating.Types.{Grade, Certificate, CipherSummary, Protocols, ScanResult}
use tlsscan.Rating.Score.{nonempty, cipher_score, numeric_to_grade, breakdown}
use tlsscan.Rating.Caps.{grade_rank, cap_at, untrusted, critical, rate}
use tlsscan.Rating.Bounds.{breakdown_bounds}
use tlsscan.Rating.Verdict.{base_grade}
use tlsscan.Rating.Grades.{resolve, resolved, excellent, promote, rate_grade}

low_grade : (n : ℕ) → n < 65 → 3 ≤ grade_rank (numeric_to_grade n)
unfolding numeric_to_grade grade_rank
low_grade n h = ground arith

resolve_low :
    (un cr s2 s3 fs ins ex : Bool) (g : Grade)
    → fs ≡ false
    → ins ≡ false
    → 3 ≤ grade_rank g
    → grade_rank g ≤ 6
    → resolve un cr s2 s3 fs ins ex g ≡ Grade.b
unfolding resolve cap_at grade_rank
resolve_low un cr s2 s3 fs ins ex g a b h k = ground arith

at_most_six : (n : ℕ) → grade_rank (numeric_to_grade n) ≤ 6
unfolding numeric_to_grade grade_rank
at_most_six n = ground arith

-- No cipher suite, no point for ciphers.
numeric_low :
    (p : Protocols) (c : Certificate) (cs : CipherSummary) (fs : Bool)
    → cipher_score cs ≡ 0
    → (breakdown p c cs fs).numeric < 65
unfolding breakdown
numeric_low p c cs fs e =
    let (hp, hk, _, _) = breakdown_bounds p c cs fs in rw e (omega (arith, hp, hk))

no_points :
    (cs : CipherSummary)
    → length cs.strong ≡ 0
    → length cs.weak ≡ 0
    → length cs.insecure ≡ 0
    → cipher_score cs ≡ 0
unfolding cipher_score
no_points cs s w i = rw (s, w, i) refl

-- A scan without any cipher suite and without forward secrecy is graded B.
pub rate_empty :
    (r : ScanResult)
    → r.forward_secrecy ≡ false
    → length r.ciphers.strong ≡ 0
    → length r.ciphers.weak ≡ 0
    → length r.ciphers.insecure ≡ 0
    → (rate r).1 ≡ Grade.b
rate_empty r fs s w i =
    let n =
      numeric_low r.protocols r.certificate r.ciphers r.forward_secrecy
        (no_points r.ciphers s w i) in
    let none : nonempty r.ciphers.insecure ≡ false = rw i refl in
    let q : resolved r ≡ Grade.b =
      resolve_low (untrusted r.certificate) (critical r.vulnerabilities) r.protocols.ssl2
        r.protocols.ssl3 r.forward_secrecy (nonempty r.ciphers.insecure)
        (r.vulnerabilities.freak || r.vulnerabilities.logjam) (base_grade r) fs none (low_grade _ n)
        (at_most_six _) in
    rate_grade r ∙ ap (promote (excellent r)) q

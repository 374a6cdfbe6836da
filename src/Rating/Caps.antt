-- ===== src/Rating/Caps.antt =====
-- pkg/tlsscan/rating.go: `capAt`, `gradeRank`, and the grade caps that `rate` applies in turn.
use tlsscan.Base.{ℕ, Bool, not, ◌&&◌, ◌||◌, List, [], ◌∷◌, ◌++◌, length, ltb, ◌==◌, if◌then◌else◌}
use tlsscan.Base.Int.{above}
use tlsscan.Rating.Types.{
  Grade, Protocols, Certificate, CipherSummary, Vulnerabilities, RatingBreakdown, Cap,
  certificate_trust, critical_vulnerability, ssl2_enabled, ssl3_enabled, no_forward_secrecy,
  insecure_cipher, export_cipher, ScanResult,
}
use tlsscan.Rating.Score.{nonempty, numeric_to_grade, breakdown}

unfoldable pub grade_rank : Grade → ℕ
grade_rank Grade.a_plus = 0
grade_rank Grade.a = 1
grade_rank Grade.b = 2
grade_rank Grade.c = 3
grade_rank Grade.d = 4
grade_rank Grade.e = 5
grade_rank Grade.f = 6
grade_rank Grade.t = 7
grade_rank Grade.r = 8

unfoldable pub cap_at : Grade → Grade → Grade
unfolding grade_rank
cap_at current ceiling = if ltb (grade_rank ceiling) (grade_rank current) then ceiling else current

-- `caps` and `grade`, the two variables that the caps change.
pub record Graded : Type 0 where
  pub caps : List Cap
  pub grade : Grade

abbrev note : Graded → Cap → Grade → Graded
note s cap g = record { caps = s.caps ++ cap ∷ []; grade = g }

-- The condition of the trust cap.
abbrev pub untrusted : Certificate → Bool
untrusted c = not c.valid || c.self_signed || c.distrusted || not c.hostname_match

-- The condition of the cap for critical vulnerabilities.
abbrev pub critical : Vulnerabilities → Bool
critical v =
    v.heartbleed || v.robot || v.drown || v.insecure_renegotiation || v.golden_doodle
    || v.zombie_poodle || v.sleeping_poodle || v.zero_length_padding_cve

unfoldable pub cap_trust : Certificate → Graded → Graded
cap_trust c s = if untrusted c then note s certificate_trust Grade.t else s

unfoldable pub cap_critical : Vulnerabilities → Graded → Graded
cap_critical v s = if critical v then note s critical_vulnerability Grade.f else s

unfoldable pub cap_ssl : Protocols → Graded → Graded
unfolding cap_at
cap_ssl p s =
    if p.ssl2
    then note s ssl2_enabled Grade.f
    else if p.ssl3
    then note s ssl3_enabled (cap_at s.grade Grade.c)
    else s

unfoldable pub cap_forward_secrecy : Bool → Graded → Graded
unfolding cap_at
cap_forward_secrecy fs s = if not fs then note s no_forward_secrecy (cap_at s.grade Grade.b) else s

unfoldable pub cap_insecure : CipherSummary → Graded → Graded
unfolding cap_at
cap_insecure c s =
    if nonempty c.insecure then note s insecure_cipher (cap_at s.grade Grade.c) else s

unfoldable pub cap_export : Vulnerabilities → Graded → Graded
unfolding cap_at
cap_export v s = if v.freak || v.logjam then note s export_cipher (cap_at s.grade Grade.c) else s

is_a : Grade → Bool
is_a Grade.a = Bool.true
is_a _ = Bool.false

-- The upgrade to A+ at the end of `rate`.
unfoldable pub upgrade : ScanResult → Graded → Graded
unfolding is_a
upgrade r s =
    if is_a s.grade
      && r.protocols.tls13
      && (length r.ciphers.weak == 0)
      && (length r.ciphers.insecure == 0)
      && above 30 r.certificate.days_to_expiry
    then record s { grade = Grade.a_plus }
    else s

-- Every cap, in the order of the code, on the grade of the numeric score.
unfoldable pub capped : ScanResult → Graded
capped r =
    let b = breakdown r.protocols r.certificate r.ciphers r.forward_secrecy in
    let s₀ : Graded = record { caps = []; grade = numeric_to_grade b.numeric } in
    let s₁ = cap_trust r.certificate s₀ in
    let s₂ = cap_critical r.vulnerabilities s₁ in
    let s₃ = cap_ssl r.protocols s₂ in
    let s₄ = cap_forward_secrecy r.forward_secrecy s₃ in
    let s₅ = cap_insecure r.ciphers s₄ in let s₆ = cap_export r.vulnerabilities s₅ in upgrade r s₆

unfoldable pub rate : ScanResult → RatingBreakdown × Grade × List Cap
rate r =
    let b = breakdown r.protocols r.certificate r.ciphers r.forward_secrecy in
    let s = capped r in (b, s.grade, s.caps)

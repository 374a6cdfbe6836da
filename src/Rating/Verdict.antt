-- ===== src/Rating/Verdict.antt =====
-- pkg/tlsscan/rating.go: what the caps do to the grade, and which caps are reported.
use tlsscan.Base.{
  append-nil, min, Bool, true, false, not, ◌||◌, List, [], ◌∷◌, ◌++◌, if◌then◌else◌, ◌≡◌, inl, inr,
  refl, arith, Bool-cases, append_assoc,
}
use tlsscan.Rating.Types.{
  Grade, Protocols, Certificate, CipherSummary, Vulnerabilities, Cap, certificate_trust,
  critical_vulnerability, ssl2_enabled, ssl3_enabled, no_forward_secrecy, insecure_cipher,
  export_cipher, ScanResult,
}
use tlsscan.Rating.Score.{nonempty, numeric_to_grade, breakdown}
use tlsscan.Rating.Caps.{
  grade_rank, cap_at, Graded, untrusted, critical, cap_trust, cap_critical, cap_ssl,
  cap_forward_secrecy, cap_insecure, cap_export, upgrade, capped, rate,
}

-- The grade that `capAt` returns has the smaller of the two ranks, and a smaller rank is a
-- better grade.
pub cap_at-min :
    (current ceiling : Grade)
    → grade_rank (cap_at current ceiling) ≡ min (grade_rank current) (grade_rank ceiling)
unfolding cap_at
cap_at-min current ceiling = ground arith

-- `x` if the test holds.
abbrev pub when : Bool → Cap → List Cap
when b x = if b then x ∷ [] else []

abbrev ssl_caps : Protocols → List Cap
ssl_caps p = if p.ssl2 then ssl2_enabled ∷ [] else when p.ssl3 ssl3_enabled

note_caps :
    (b : Bool) (s : Graded) (x : Cap) (g : Grade)
    → (if b then record { caps = s.caps ++ x ∷ []; grade = g } else s).caps ≡ s.caps ++ when b x
note_caps true s x g = refl
note_caps false s x g = rw append-nil

trust_caps :
    (c : Certificate) (s : Graded)
    → (cap_trust c s).caps ≡ s.caps ++ when (untrusted c) certificate_trust
unfolding cap_trust
trust_caps c s = note_caps (untrusted c) s certificate_trust Grade.t

critical_caps :
    (v : Vulnerabilities) (s : Graded)
    → (cap_critical v s).caps ≡ s.caps ++ when (critical v) critical_vulnerability
unfolding cap_critical
critical_caps v s = note_caps (critical v) s critical_vulnerability Grade.f

ssl_caps_lem : (p : Protocols) (s : Graded) → (cap_ssl p s).caps ≡ s.caps ++ ssl_caps p
unfolding cap_ssl
ssl_caps_lem p s = elim (Bool-cases p.ssl2) [
  | inl e ↦ rw e
  | inr e ↦ rw e (note_caps p.ssl3 s ssl3_enabled (cap_at s.grade Grade.c))
]

forward_secrecy_caps :
    (fs : Bool) (s : Graded)
    → (cap_forward_secrecy fs s).caps ≡ s.caps ++ when (not fs) no_forward_secrecy
unfolding cap_forward_secrecy
forward_secrecy_caps fs s = note_caps (not fs) s no_forward_secrecy (cap_at s.grade Grade.b)

insecure_caps :
    (c : CipherSummary) (s : Graded)
    → (cap_insecure c s).caps ≡ s.caps ++ when (nonempty c.insecure) insecure_cipher
unfolding cap_insecure
insecure_caps c s = note_caps (nonempty c.insecure) s insecure_cipher (cap_at s.grade Grade.c)

export_caps :
    (v : Vulnerabilities) (s : Graded)
    → (cap_export v s).caps ≡ s.caps ++ when (v.freak || v.logjam) export_cipher
unfolding cap_export
export_caps v s = note_caps (v.freak || v.logjam) s export_cipher (cap_at s.grade Grade.c)

upgrade_caps : (r : ScanResult) (s : Graded) → (upgrade r s).caps ≡ s.caps
unfolding upgrade
upgrade_caps r s = ground arith

-- The reported caps are exactly those whose condition holds, in the order of the code: trust,
-- critical vulnerability, SSLv2 or else SSLv3, no forward secrecy, insecure cipher, export cipher.
pub rate_caps :
    (r : ScanResult)
    → (rate r).2
      ≡ when (untrusted r.certificate) certificate_trust
        ++ (when (critical r.vulnerabilities) critical_vulnerability
            ++ (ssl_caps r.protocols
                ++ (when (not r.forward_secrecy) no_forward_secrecy
                    ++ (when (nonempty r.ciphers.insecure) insecure_cipher
                        ++ when
                            (r.vulnerabilities.freak || r.vulnerabilities.logjam)
                            export_cipher))))
unfolding rate capped
rate_caps r = simp (
  upgrade_caps, export_caps, insecure_caps, forward_secrecy_caps, ssl_caps_lem, critical_caps,
  trust_caps, append_assoc,
)

-- The conditions under which `rate` sets the grade outright, and not by `capAt`.
abbrev pub failing : ScanResult → Bool
failing r = critical r.vulnerabilities || r.protocols.ssl2

-- The grade before the caps.
abbrev pub base_grade : ScanResult → Grade
base_grade r =
    numeric_to_grade (breakdown r.protocols r.certificate r.ciphers r.forward_secrecy).numeric

pub trust_grade :
    (c : Certificate) (s : Graded)
    → (cap_trust c s).grade ≡ (if untrusted c then Grade.t else s.grade)
unfolding cap_trust
trust_grade c s = elim (Bool-cases (untrusted c)) [ inl e ↦ rw e | inr e ↦ rw e ]

pub critical_grade :
    (v : Vulnerabilities) (s : Graded)
    → (cap_critical v s).grade ≡ (if critical v then Grade.f else s.grade)
unfolding cap_critical
critical_grade v s = elim (Bool-cases (critical v)) [ inl e ↦ rw e | inr e ↦ rw e ]

pub ssl_grade :
    (p : Protocols) (s : Graded)
    → (cap_ssl p s).grade
      ≡ (if p.ssl2 then Grade.f else if p.ssl3 then cap_at s.grade Grade.c else s.grade)
unfolding cap_ssl
ssl_grade p s = ground arith

pub forward_secrecy_grade :
    (fs : Bool) (s : Graded)
    → (cap_forward_secrecy fs s).grade ≡ (if fs then s.grade else cap_at s.grade Grade.b)
unfolding cap_forward_secrecy
forward_secrecy_grade fs s = ground arith

pub insecure_grade :
    (c : CipherSummary) (s : Graded)
    → (cap_insecure c s).grade ≡ (if nonempty c.insecure then cap_at s.grade Grade.c else s.grade)
unfolding cap_insecure
insecure_grade c s = elim (Bool-cases (nonempty c.insecure)) [ inl e ↦ rw e | inr e ↦ rw e ]

pub export_grade :
    (v : Vulnerabilities) (s : Graded)
    → (cap_export v s).grade ≡ (if v.freak || v.logjam then cap_at s.grade Grade.c else s.grade)
unfolding cap_export
export_grade v s = ground arith

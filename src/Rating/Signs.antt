-- ===== src/Rating/Signs.antt =====
-- pkg/tlsscan/rating.go: the reported caps, beside the table of caps in README.md.
use tlsscan.Base.{
  ℕ, Bool, true, false, not, ◌&&◌, ◌||◌, List, [], ◌∷◌, ◌++◌, ◌==◌, if◌then◌else◌, ◌≡◌, ◌∙◌, refl,
  ap, arith,
}
use tlsscan.Rating.Types.{
  Cap, certificate_trust, critical_vulnerability, ssl2_enabled, ssl3_enabled, no_forward_secrecy,
  insecure_cipher, export_cipher, ScanResult,
}
use tlsscan.Rating.Score.{nonempty}
use tlsscan.Rating.Caps.{untrusted, critical, rate}
use tlsscan.Rating.Verdict.{when, rate_caps}

-- What the table names for a cap: the findings of which one is enough.
abbrev pub signs : ScanResult → Cap → List Bool
signs r certificate_trust =
    not r.certificate.valid
    ∷ r.certificate.self_signed
    ∷ r.certificate.distrusted
    ∷ not r.certificate.hostname_match
    ∷ []
signs r critical_vulnerability =
    r.vulnerabilities.heartbleed ∷ r.vulnerabilities.drown ∷ r.vulnerabilities.robot
    ∷ r.vulnerabilities.insecure_renegotiation ∷ r.vulnerabilities.golden_doodle
    ∷ r.vulnerabilities.zombie_poodle ∷ r.vulnerabilities.sleeping_poodle
    ∷ r.vulnerabilities.zero_length_padding_cve ∷ []
signs r ssl2_enabled = r.protocols.ssl2 ∷ []
signs r ssl3_enabled = (r.protocols.ssl3 && not r.protocols.ssl2) ∷ []
signs r no_forward_secrecy = not r.forward_secrecy ∷ []
signs r insecure_cipher = nonempty r.ciphers.insecure ∷ []
signs r export_cipher = r.vulnerabilities.freak ∷ r.vulnerabilities.logjam ∷ []

abbrev pub some_true : List Bool → Bool
some_true [] = false
some_true (b ∷ bs) = b || some_true bs

abbrev cap_number : Cap → ℕ
cap_number certificate_trust = 0
cap_number critical_vulnerability = 1
cap_number ssl2_enabled = 2
cap_number ssl3_enabled = 3
cap_number no_forward_secrecy = 4
cap_number insecure_cipher = 5
cap_number export_cipher = 6

-- Whether the cap is in the list.
abbrev pub reports : List Cap → Cap → Bool
reports [] x = false
reports (c ∷ cs) x = cap_number c == cap_number x || reports cs x

reports-append :
    (cs ds : List Cap) (x : Cap) → reports (cs ++ ds) x ≡ (reports cs x || reports ds x)
reports-append [] ds x = refl
reports-append (c ∷ cs) ds x = ground (arith, reports-append cs ds x)

abbrev pub caps_of : (un cr s2 s3 fs ins ex : Bool) → List Cap
caps_of un cr s2 s3 fs ins ex =
    when un certificate_trust
    ++ (when cr critical_vulnerability
        ++ ((if s2 then ssl2_enabled ∷ [] else when s3 ssl3_enabled)
            ++ (when (not fs) no_forward_secrecy
                ++ (when ins insecure_cipher ++ when ex export_cipher))))

-- Which of the conditions is the one of a cap.
abbrev condition : (un cr s2 s3 fs ins ex : Bool) → Cap → Bool
condition un cr s2 s3 fs ins ex certificate_trust = un
condition un cr s2 s3 fs ins ex critical_vulnerability = cr
condition un cr s2 s3 fs ins ex ssl2_enabled = s2
condition un cr s2 s3 fs ins ex ssl3_enabled = s3 && not s2
condition un cr s2 s3 fs ins ex no_forward_secrecy = not fs
condition un cr s2 s3 fs ins ex insecure_cipher = ins
condition un cr s2 s3 fs ins ex export_cipher = ex

reports-when : (b : Bool) (c x : Cap) → reports (when b c) x ≡ (b && (cap_number c == cap_number x))
reports-when true c x = ground arith
reports-when false c x = refl

reports-ssl :
    (s2 s3 : Bool) (x : Cap)
    → reports (if s2 then ssl2_enabled ∷ [] else when s3 ssl3_enabled) x
      ≡ ((s2 && (2 == cap_number x)) || ((s3 && not s2) && (3 == cap_number x)))
reports-ssl true s3 x = ground arith
reports-ssl false true x = ground arith
reports-ssl false false x = refl

reports-caps_of :
    (un cr s2 s3 fs ins ex : Bool) (x : Cap)
    → reports (caps_of un cr s2 s3 fs ins ex) x ≡ condition un cr s2 s3 fs ins ex x
reports-caps_of un cr s2 s3 fs ins ex x =
    simp (reports-append, reports-when, reports-ssl) (picked un cr s2 s3 fs ins ex x)
  where
    picked :
        (un cr s2 s3 fs ins ex : Bool) (x : Cap)
        → ((un && (0 == cap_number x))
            || ((cr && (1 == cap_number x))
                || (((s2 && (2 == cap_number x)) || ((s3 && not s2) && (3 == cap_number x)))
                    || ((not fs && (4 == cap_number x))
                        || ((ins && (5 == cap_number x)) || (ex && (6 == cap_number x)))))))
          ≡ condition un cr s2 s3 fs ins ex x
    picked un cr s2 s3 fs ins ex certificate_trust = ground arith
    picked un cr s2 s3 fs ins ex critical_vulnerability = ground arith
    picked un cr s2 s3 fs ins ex ssl2_enabled = ground arith
    picked un cr s2 s3 fs ins ex ssl3_enabled = ground arith
    picked un cr s2 s3 fs ins ex no_forward_secrecy = ground arith
    picked un cr s2 s3 fs ins ex insecure_cipher = ground arith
    picked un cr s2 s3 fs ins ex export_cipher = ground arith

condition-signs :
    (r : ScanResult) (x : Cap)
    → condition
        (untrusted r.certificate)
        (critical r.vulnerabilities)
        r.protocols.ssl2
        r.protocols.ssl3
        r.forward_secrecy
        (nonempty r.ciphers.insecure)
        (r.vulnerabilities.freak || r.vulnerabilities.logjam)
        x
      ≡ some_true (signs r x)
condition-signs r certificate_trust = ground arith
condition-signs r critical_vulnerability = ground arith
condition-signs r ssl2_enabled = ground arith
condition-signs r ssl3_enabled = ground arith
condition-signs r no_forward_secrecy = ground arith
condition-signs r insecure_cipher = ground arith
condition-signs r export_cipher = ground arith

-- A cap is reported exactly if one of its findings holds.
pub reports-rate : (r : ScanResult) (x : Cap) → reports (rate r).2 x ≡ some_true (signs r x)
reports-rate r x =
    ap (λ cs. reports cs x) (rate_caps r)
    ∙ reports-caps_of (untrusted r.certificate) (critical r.vulnerabilities) r.protocols.ssl2
        r.protocols.ssl3 r.forward_secrecy (nonempty r.ciphers.insecure)
        (r.vulnerabilities.freak || r.vulnerabilities.logjam) x
    ∙ condition-signs r x

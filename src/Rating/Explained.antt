-- ===== src/Rating/Explained.antt =====
-- pkg/tlsscan/rating.go: the reported caps as an account of the grade.
use tlsscan.Base.{
  Bool, true, false, not, ◌||◌, List, [], ◌∷◌, ◌++◌, ltb, if◌then◌else◌, ◌≡◌, ◌∙◌, refl, sym, ap,
}
use tlsscan.Rating.Types.{
  Grade, Cap, certificate_trust, critical_vulnerability, ssl2_enabled, ssl3_enabled,
  no_forward_secrecy, insecure_cipher, export_cipher, ScanResult,
}
use tlsscan.Rating.Score.{nonempty}
use tlsscan.Rating.Caps.{grade_rank, cap_at, untrusted, critical, rate}
use tlsscan.Rating.Verdict.{base_grade, when, rate_caps}
use tlsscan.Rating.Grades.{resolve, excellent, promote, rate_grade}
use tlsscan.Rating.Signs.{signs, some_true, reports, caps_of, reports-rate}

-- The better of two grades.
abbrev better : Grade → Grade → Grade
better g k = if ltb (grade_rank k) (grade_rank g) then k else g

-- What one reported cap makes of the grade so far.
abbrev applied : Grade → Cap → Grade
applied g certificate_trust = Grade.t
applied g critical_vulnerability = Grade.f
applied g ssl2_enabled = Grade.f
applied g ssl3_enabled = better g Grade.c
applied g no_forward_secrecy = better g Grade.b
applied g insecure_cipher = better g Grade.c
applied g export_cipher = better g Grade.c

-- What a list of caps makes of it, from the first one on.
abbrev pub recomputed : Grade → List Cap → Grade
recomputed g [] = g
recomputed g (c ∷ cs) = recomputed (applied g c) cs

recomputed-append :
    (g : Grade) (cs ds : List Cap) → recomputed g (cs ++ ds) ≡ recomputed (recomputed g cs) ds
recomputed-append g [] ds = refl
recomputed-append g (c ∷ cs) ds = recomputed-append (applied g c) cs ds

module _ (g : Grade) where
  recomputed-untrusted :
      (b : Bool) → recomputed g (when b certificate_trust) ≡ (if b then Grade.t else g)
  recomputed-untrusted true = refl
  recomputed-untrusted false = refl

  recomputed-critical :
      (b : Bool) → recomputed g (when b critical_vulnerability) ≡ (if b then Grade.f else g)
  recomputed-critical true = refl
  recomputed-critical false = refl

  recomputed-ssl :
      (s2 s3 : Bool)
      → recomputed g (if s2 then ssl2_enabled ∷ [] else when s3 ssl3_enabled)
        ≡ (if s2 then Grade.f else if s3 then cap_at g Grade.c else g)
  unfolding cap_at
  recomputed-ssl true s3 = refl
  recomputed-ssl false true = refl
  recomputed-ssl false false = refl

  recomputed-forward_secrecy :
      (fs : Bool)
      → recomputed g (when (not fs) no_forward_secrecy) ≡ (if fs then g else cap_at g Grade.b)
  unfolding cap_at
  recomputed-forward_secrecy true = refl
  recomputed-forward_secrecy false = refl

  recomputed-insecure :
      (b : Bool) → recomputed g (when b insecure_cipher) ≡ (if b then cap_at g Grade.c else g)
  unfolding cap_at
  recomputed-insecure true = refl
  recomputed-insecure false = refl

  recomputed-export :
      (b : Bool) → recomputed g (when b export_cipher) ≡ (if b then cap_at g Grade.c else g)
  unfolding cap_at
  recomputed-export true = refl
  recomputed-export false = refl

resolve_lem :
    (un cr s2 s3 fs ins ex : Bool) (g : Grade)
    → recomputed g (caps_of un cr s2 s3 fs ins ex) ≡ resolve un cr s2 s3 fs ins ex g
unfolding resolve
resolve_lem un cr s2 s3 fs ins ex g =
    simp
      (
        recomputed-append, recomputed-untrusted, recomputed-critical, recomputed-ssl,
        recomputed-forward_secrecy, recomputed-insecure, recomputed-export,
      )
      refl

-- A cap is reported exactly if one of the findings holds that README.md names for it, with SSLv3
-- only where there is no SSLv2; and the reported caps account for the grade. Beginning with the
-- grade of the numeric score, it is what they make of it in turn, T for trust, F for a critical
-- vulnerability or SSLv2, and the better of the grade so far and the ceiling for the others, with A
-- raised to A+ for an excellent configuration.
pub rate_explained :
    (r : ScanResult)
    → ((x : Cap) → reports (rate r).2 x ≡ some_true (signs r x))
      × ((rate r).1 ≡ promote (excellent r) (recomputed (base_grade r) (rate r).2))
rate_explained r = (
  reports-rate r,
  rate_grade r
      ∙ ap (promote (excellent r)) (
          sym (
            resolve_lem (untrusted r.certificate) (critical r.vulnerabilities) r.protocols.ssl2
              r.protocols.ssl3 r.forward_secrecy (nonempty r.ciphers.insecure)
              (r.vulnerabilities.freak || r.vulnerabilities.logjam) (base_grade r))
          ∙ ap (recomputed (base_grade r)) (sym (rate_caps r))),
)

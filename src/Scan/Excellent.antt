-- ===== src/Scan/Excellent.antt =====
-- pkg/tlsscan/scanner.go and pkg/tlsscan/rating.go: what a scan that is graded A+ has met.
use tlsscan.Base.{
  ℕ, Bool, true, false, List, [], ◌∷◌, Option, none, some, length, ltb, map, if◌then◌else◌, ◌≡◌,
  ◌⊎◌, ◌∙◌, refl, sym, ap, arith, inl, inr, length-append,
}
use tlsscan.Base.Int.{above}
use tlsscan.Base.Text.{codes, contains_substr}
use tlsscan.Net.{Result, ok, err}
use tlsscan.Probe.{probe_ssl2, probe_ssl3}
use tlsscan.Rating.Types.{Grade, ScanResult}
use tlsscan.Rating.Caps.{rate, untrusted}
use tlsscan.Rating.Grades.{rate_a_plus}
use tlsscan.Scan.Ciphers.{
  Strength, CatalogEntry, strong_class, weak_class, insecure_class, name_of, names_of,
  same_strength,
}
use tlsscan.Scan.Guard.{GuardError, guard_target}
use tlsscan.Scan.Handshake.{cipher_accepted, handshake_at, version_tls13, probe_protocols}
use tlsscan.Scan.Certificate.{
  Fetched, fetch_certificate, analyse_certificate, same_text, lower_byte,
}
use tlsscan.Scan.Run.{scan_after, Environment, Options, with_certificate, collected, rated, scan}
use tlsscan.Scan.Graded.{summary}

abbrev right_or : ScanResult → GuardError ⊎ ScanResult → ScanResult
right_or d (inl e) = d
right_or d (inr r) = r

abbrev result_number : GuardError ⊎ ScanResult → ℕ
result_number (inl e) = 0
result_number (inr r) = 1

-- Of the suites of the list, only strong ones are accepted.
abbrev pub OnlyStrong : (ℕ → Bool) → List CatalogEntry → Type 0
OnlyStrong accepted [] = Unit
OnlyStrong accepted (e ∷ es) =
    (accepted e.suite ≡ true → e.strength ≡ strong_class) × OnlyStrong accepted es

only_strong :
    (accepted : ℕ → Bool) (es : List CatalogEntry)
    → length (names_of weak_class accepted es) ≡ 0
    → length (names_of insecure_class accepted es) ≡ 0
    → OnlyStrong accepted es
only_strong accepted [] w i = tt
only_strong accepted (e ∷ es) w i =
    let a = length-append (name_of weak_class accepted e) (names_of weak_class accepted es) in
    let b =
      length-append (name_of insecure_class accepted e) (names_of insecure_class accepted es) in
    (
      λ h.
          strength_of e.strength
            (rw h at
              (let x : length (name_of weak_class accepted e) ≡ 0 = omega (arith, a, b) in x))
            (rw h at
              (let x : length (name_of insecure_class accepted e) ≡ 0 = omega (arith, a, b) in x)),
      only_strong accepted es (omega (arith, a)) (omega (arith, b)),
    )
  where
    strength_of :
        (k : Strength)
        → length (if same_strength k weak_class then e.name ∷ [] else []) ≡ 0
        → length (if same_strength k insecure_class then e.name ∷ [] else []) ≡ 0
        → k ≡ strong_class
    strength_of strong_class w i = refl
    strength_of weak_class w i = absurd (omega arith)
    strength_of insecure_class w i = absurd (omega arith)

-- What a scan must have met to be graded A+.
pub record IsExcellent (env : Environment) (options : Options) : Type 0 where
  pub chain : Fetched
  pub was_fetched : fetch_certificate env.tls ≡ ok chain
  pub has_started : ltb chain.leaf.not_before env.trust.now ≡ true
  pub has_not_ended : ltb env.trust.now chain.leaf.not_after ≡ true
  pub names_target : chain.leaf.names_host options.host ≡ true
  pub is_issued : same_text chain.leaf.issuer chain.leaf.subject ≡ false
  pub avoids_sha1 :
      contains_substr (map lower_byte chain.leaf.signature_algorithm) (codes "sha1") ≡ false
  pub lasts : above 30 (env.trust.days_until chain.leaf.not_after) ≡ true
  pub takes_tls13 : handshake_at env.tls version_tls13 ≡ true
  pub refuses_ssl3 : probe_ssl3 env.ssl3 ≡ false
  pub refuses_ssl2 : probe_ssl2 env.ssl2 ≡ false
  pub strong_suites : OnlyStrong (cipher_accepted env.tls) env.order

module _ (env : Environment) (options : Options) where
  from_certificate :
      (f : Result Fetched)
      → fetch_certificate env.tls ≡ f
      → (untrusted (with_certificate env options (probe_protocols env.tls env.ssl3 env.ssl2) f).1
          ≡ false)
      → ((with_certificate env options (probe_protocols env.tls env.ssl3 env.ssl2) f).0.ssl2
          ≡ false)
      → ((with_certificate env options (probe_protocols env.tls env.ssl3 env.ssl2) f).0.ssl3
          ≡ false)
      → ((with_certificate env options (probe_protocols env.tls env.ssl3 env.ssl2) f).0.tls13
          ≡ true)
      → (above 30
            (with_certificate env options
              (probe_protocols env.tls env.ssl3 env.ssl2)
              f).1.days_to_expiry
          ≡ true)
      → OnlyStrong (cipher_accepted env.tls) env.order
      → IsExcellent env options
  unfolding probe_protocols analyse_certificate
  from_certificate (err e) q un s2 s3 t13 d o = absurd (ground arith)
  from_certificate (ok f) q un s2 s3 t13 d o = record {
    chain = f;
    was_fetched = q;
    has_started = ground arith;
    has_not_ended = ground arith;
    names_target = ground arith;
    is_issued = ground arith;
    avoids_sha1 = ground arith;
    lasts = d;
    takes_tls13 = t13;
    refuses_ssl3 = s3;
    refuses_ssl2 = s2;
    strong_suites = o;
  }

  collected_a_plus : (rate (collected env options)).1 ≡ Grade.a_plus → IsExcellent env options
  unfolding collected
  collected_a_plus h =
      let (un, cr, s2, s3, t13, w, i, d) = rate_a_plus (collected env options) h in
      let s = summary env options in
      from_certificate (fetch_certificate env.tls) refl un s2 s3 t13 d (
        only_strong (cipher_accepted env.tls) env.order (ap (λ x. length x.0.weak) (sym s) ∙ w)
          (ap (λ x. length x.0.insecure) (sym s) ∙ i))

  -- If a scan returns a result that is graded A+, then one of the two certificate handshakes
  -- gave a chain whose leaf has started, has not ended, lasts for more than 30 days, names the
  -- host, has an issuer of another name and is not signed with SHA-1; the handshake pinned to
  -- TLS 1.3 succeeded, the probes found neither SSLv3 nor SSLv2, and every suite of the list
  -- that was accepted is a strong one.
  pub scan-IsExcellent :
      (r : ScanResult) → scan env options ≡ inr r → r.grade ≡ Grade.a_plus → IsExcellent env options
  unfolding scan
  scan-IsExcellent r e g = go (guard_target env.names options.host) e
    where
      go : (o : Option GuardError) → scan_after env options o ≡ inr r → IsExcellent env options
      go (some x) e = (let q = ap result_number e in absurd (omega (arith, q)))
      go none e =
          let q : rated env options (collected env options) ≡ r = ap (right_or r) e in
          collected_a_plus (ap (λ x. x.grade) q ∙ g)

-- ===== src/Scan/Graded.antt =====
-- pkg/tlsscan/scanner.go: what a whole scan reports.
use tlsscan.Base.{ℕ, Bool, false, List, [], ◌∷◌, none, length, ◌≡◌, ◌∙◌, refl, ap, inr}
use tlsscan.Rating.Types.{Grade, ScanResult}
use tlsscan.Rating.Caps.{rate}
use tlsscan.Rating.Empty.{rate_empty}
use tlsscan.Scan.Ciphers.{
  insecure_class, strong_class, weak_class, names_of, offers_forward, Strength, summary_of,
  CatalogEntry, probe_ciphers, probe_ciphers_lem,
}
use tlsscan.Scan.Guard.{guard_target}
use tlsscan.Scan.Handshake.{cipher_accepted}
use tlsscan.Scan.Run.{Environment, Options, collected, rated, scan}

-- A server that accepts none of the suites in a handshake of TLS 1.2.
abbrev pub RefusesAll : (ℕ → Bool) → List CatalogEntry → Type 0
RefusesAll accepted [] = Unit
RefusesAll accepted (e ∷ es) = (accepted e.suite ≡ false) × RefusesAll accepted es

no_name :
    (k : Strength) (accepted : ℕ → Bool) (es : List CatalogEntry)
    → RefusesAll accepted es
    → length (names_of k accepted es) ≡ 0
no_name k accepted [] h = refl
no_name k accepted (e ∷ es) (h, hs) = rw h (no_name k accepted es hs)

no_forward :
    (accepted : ℕ → Bool) (es : List CatalogEntry)
    → RefusesAll accepted es
    → offers_forward accepted es ≡ false
no_forward accepted [] h = refl
no_forward accepted (e ∷ es) (h, hs) = rw h (no_forward accepted es hs)

module _ (env : Environment) (options : Options) where
  pub summary : probe_ciphers (cipher_accepted env.tls) env.order ≡ (
    summary_of (cipher_accepted env.tls) env.order,
    offers_forward (cipher_accepted env.tls) env.order,
  )
  summary = probe_ciphers_lem (cipher_accepted env.tls) env.order

  pub scan_runs :
      guard_target env.names options.host ≡ none
      → scan env options ≡ inr (rated env options (collected env options))
  unfolding scan
  scan_runs e = rw e refl

  collected_grade :
      RefusesAll (cipher_accepted env.tls) env.order → (rate (collected env options)).1 ≡ Grade.b
  unfolding collected
  collected_grade refuses =
      let accepted = cipher_accepted env.tls in
      rate_empty (collected env options)
        (ap (λ s. s.1) summary ∙ no_forward accepted env.order refuses)
        (ap (λ s. length s.0.strong) summary ∙ no_name strong_class accepted env.order refuses)
        (ap (λ s. length s.0.weak) summary ∙ no_name weak_class accepted env.order refuses)
        (ap (λ s. length s.0.insecure) summary ∙ no_name insecure_class accepted env.order refuses)

  -- Where the guard lets the target pass and no handshake with one of the suites of the list
  -- succeeds, as for a host that never answers and for a server with TLS 1.3 alone, the scan
  -- returns a result, and it is graded B, whatever else was found.
  pub scan-RefusesAll :
      guard_target env.names options.host ≡ none
      → RefusesAll (cipher_accepted env.tls) env.order
      → (r : ScanResult) × (scan env options ≡ inr r) × (r.grade ≡ Grade.b)
  scan-RefusesAll e refuses =
      (rated env options (collected env options), scan_runs e, collected_grade refuses)

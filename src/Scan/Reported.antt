-- ===== src/Scan/Reported.antt =====
-- pkg/tlsscan/scanner.go: a whole scan of a host that answers the renegotiation probe or the Heartbleed
-- probe.
use tlsscan.Base.{
  ℕ, ◌≤◌, true, false, not, List, [], ◌∷◌, ◌++◌, none, some, inr, length, ◌≡◌, ◌∙◌, refl, ap, arith,
}
use tlsscan.Wire.{Bytes}
use tlsscan.Wire.Hello.{client_hello_with_heartbeat, malicious_heartbeat}
use tlsscan.Net.{Peer}
use tlsscan.Net.Full.{flat}
use tlsscan.Probe.Stream.{accepted, answer}
use tlsscan.Parse.RoundTrip.{carries, ServerHello, IsFitting, server_hello}
use tlsscan.Renegotiation.{renegotiation_hello, probe_insecure_renegotiation}
use tlsscan.Renegotiation.Reassembly.{records, AreFragments}
use tlsscan.Renegotiation.Verdict.{probe_insecure_renegotiation_lem}
use tlsscan.Heartbleed.{heartbleed}
use tlsscan.Heartbleed.Verdict.{leaks, heartbleed_lem}
use tlsscan.Rating.Types.{Grade, ScanResult, Vulnerabilities}
use tlsscan.Rating.Caps.{critical}
use tlsscan.Scan.Guard.{guard_target}
use tlsscan.Scan.Vulns.{or_false_probe, probe_vulnerabilities}
use tlsscan.Scan.Run.{Environment, Options, collected, scan}
use tlsscan.Scan.Critical.{IsClean, scan-critical}

module _ (env : Environment) (options : Options)
    (permitted : guard_target env.names options.host ≡ none) (checks : options.check_vulns ≡ true)
    (peer : Peer) where
  renegotiation_lem :
      (collected env options).vulnerabilities.insecure_renegotiation
      ≡ or_false_probe (probe_insecure_renegotiation env.targets.renegotiation)
  unfolding collected probe_vulnerabilities
  renegotiation_lem = rw checks refl

  heartbleed_target_lem :
      (collected env options).vulnerabilities.heartbleed
      ≡ or_false_probe (heartbleed env.targets.heartbleed_target)
  unfolding collected probe_vulnerabilities
  heartbleed_target_lem = rw checks refl

  -- Take a scan with the vulnerability checks, of a host that the guard lets pass, with forward
  -- secrecy and nothing for which the rating notes a cap of B or C. If its server takes the hello
  -- of the renegotiation probe and answers with an encoded ServerHello whose fields fit their
  -- lengths, of at most 65536 bytes, without `renegotiation_info`, cut into handshake records that
  -- are not empty, with any bytes behind them, in any packets, then the scan reports insecure
  -- renegotiation and grades the host F.
  pub scan-insecure_renegotiation :
      (h : ServerHello) (version : ℕ) (fs : List Bytes) (more : Bytes)
      → env.targets.renegotiation ≡ some peer
      → IsFitting h
      → length (server_hello h) ≤ 65536
      → carries 0xff01 h.extensions ≡ false
      → AreFragments fs
      → flat fs ≡ server_hello h
      → accepted peer renegotiation_hello ≡ true
      → answer peer renegotiation_hello ≡ records version fs ++ more
      → IsClean (collected env options)
      → (r : ScanResult) × (scan env options ≡ inr r)
        × (r.vulnerabilities.insecure_renegotiation ≡ true)
        × (r.grade ≡ Grade.f)
  scan-insecure_renegotiation h version fs more at fits short absent are whole taken sent clean =
      let verdict =
        probe_insecure_renegotiation_lem peer h version fs more fits short are whole taken sent in
      let reported =
        renegotiation_lem
        ∙ ap (λ t. or_false_probe (probe_insecure_renegotiation t)) at
        ∙ ap or_false_probe verdict
        ∙ ap not absent in
      scan-critical env options (λ v. v.insecure_renegotiation) permitted renegotiation_is_critical
        reported clean
    where
      renegotiation_is_critical :
          (v : Vulnerabilities) → v.insecure_renegotiation ≡ true → critical v ≡ true
      renegotiation_is_critical v h = ground arith

  -- Take such a scan. If the server takes both messages of the Heartbleed probe, its answer to the
  -- first one begins with a packet of at most 4096 bytes, and the rest of that answer, followed by
  -- the answer to the heartbeat, begins with a heartbeat record of more than 16 bytes, then the
  -- scan reports Heartbleed and grades the host F.
  pub scan-leaks :
      (first : Bytes) (rest : List Bytes)
      → let hello = client_hello_with_heartbeat ∷ [] in
        let both = client_hello_with_heartbeat ∷ malicious_heartbeat ∷ [] in
        env.targets.heartbleed_target ≡ some peer
        → peer.accepts hello ≡ true
        → peer.accepts both ≡ true
        → peer.reply hello ≡ first ∷ rest
        → length first ≤ 4096
        → leaks (flat rest ++ flat (peer.reply both)) ≡ true
        → IsClean (collected env options)
        → (r : ScanResult) × (scan env options ≡ inr r)
          × (r.vulnerabilities.heartbleed ≡ true)
          × (r.grade ≡ Grade.f)
  scan-leaks first rest at takes_hello takes_both flight small leak clean =
      let reported =
        heartbleed_target_lem
        ∙ ap (λ t. or_false_probe (heartbleed t)) at
        ∙ ap or_false_probe (heartbleed_lem peer first rest takes_hello takes_both flight small)
        ∙ leak in
      scan-critical env options (λ v. v.heartbleed) permitted heartbleed_is_critical reported clean
    where
      heartbleed_is_critical : (v : Vulnerabilities) → v.heartbleed ≡ true → critical v ≡ true
      heartbleed_is_critical v h = ground arith

-- ===== src/Scan/Wired.antt =====
-- pkg/tlsscan/vulns.go: which server and which offer each verdict of `probeVulnerabilities` rests on.
use tlsscan.Base.{ℕ, true, [], ◌∷◌, ◌≡◌}
use tlsscan.Wire.{Bytes}
use tlsscan.Net.{Peer}
use tlsscan.Rating.Types.{Protocols}
use tlsscan.Wire.Hello.{client_hello_tls}
use tlsscan.Probe.Stream.{selects}
use tlsscan.Probe.Verdict.{judged}
use tlsscan.Scan.Fallback.{SecondTop}

-- The hello of the fallback probe: at most that version, with TLS_FALLBACK_SCSV behind the suites.
abbrev fallback_offer : ℕ → Bytes
fallback_offer version =
    client_hello_tls version version
      (0xc02f ∷ 0xc030 ∷ 0xc013 ∷ 0xc014 ∷ 0x002f ∷ 0x0035 ∷ 0x000a ∷ 0x5600 ∷ []) []

-- The peer answers that hello with a ServerHello, for the second highest version of the server.
abbrev pub Downgrades : Protocols → Peer → Type 0
Downgrades p peer =
    (version : ℕ) × SecondTop p version × (judged peer (fallback_offer version) selects ≡ true)

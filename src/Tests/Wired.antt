-- ===== src/Tests/Wired.antt =====
-- The verdicts of vulns.go on three servers, of which one takes export suites.
use tlsscan.Base.{true, false, [], ◌∷◌, some}
use tlsscan.Base.Text.{codes}
use tlsscan.Rating.Types.{Protocols, CipherSummary, Vulnerabilities}
use tlsscan.Scan.Vulns.{Targets, probe_vulnerabilities}
use tlsscan.Tests.Net.{willing, refusing}
use tlsscan.Tests.Service.{targets}

abbrev old_protocols : Protocols
old_protocols = record {
  ssl2 = false;
  ssl3 = true;
  tls10 = true;
  tls11 = false;
  tls12 = true;
  tls13 = false;
  alpn = [];
  http2 = false;
}

abbrev old_ciphers : CipherSummary
old_ciphers = record {
  strong = [];
  weak = codes "RSA_3DES_EDE_CBC" ∷ [];
  insecure = [];
  server_preferred = false;
}

abbrev three_servers : Targets
three_servers = record targets {
  export_rsa = some willing;
  export_dh = some refusing;
  fallback = some willing;
}

abbrev found : Vulnerabilities
found = probe_vulnerabilities three_servers (codes "example.com") old_protocols old_ciphers

-- ===== src/Tests/Reported.antt =====
-- A whole scan of a modern host with an old ServerHello, and of one that leaks.
use tlsscan.Base.{
  ◌≤◌, true, none, List, [], ◌∷◌, ◌++◌, some, inr, length, take, drop, replicate, ◌≡◌, refl, arith,
  append-nil,
}
use tlsscan.Base.Text.{codes, has_prefix, contains_substr}
use tlsscan.Wire.{Bytes}
use tlsscan.Wire.Headers.{wrap_handshake}
use tlsscan.Net.{Peer, dial}
use tlsscan.Net.Full.{flat}
use tlsscan.Probe.{
  probe_ssl3, probe_ssl2, ask, probe_export_rsa, probe_export_dh, server_selects_offered,
}
use tlsscan.Parse.RoundTrip.{ServerHello, IsFitting, server_hello}
use tlsscan.Renegotiation.Reassembly.{records, AreFragments}
use tlsscan.Rating.Types.{Grade, ScanResult}
use tlsscan.Scan.Address.{to4, is_blocked_ip}
use tlsscan.Scan.Guard.{guard_addresses, guard_target}
use tlsscan.Scan.Ciphers.{enumerate, probe_ciphers}
use tlsscan.Scan.Handshake.{probe_protocols, cipher_accepted, handshake_at}
use tlsscan.Scan.Certificate.{analyse_certificate, fetch_certificate, fetch_certificate_at}
use tlsscan.Scan.Vulns.{probe_vulnerabilities}
use tlsscan.Scan.Run.{Environment, Options, collected, scan}
use tlsscan.Scan.Critical.{IsClean}
use tlsscan.Scan.Reported.{scan-insecure_renegotiation, scan-leaks}
use tlsscan.Tests.Service.{modern_host}
use tlsscan.Tests.Heartbleed.{leaking_after, part_of_hello}
use tlsscan.Tests.Oracle.{site}

abbrev options : Options
options = record { host = site; port = 443; check_vulns = true }

-- A ServerHello without `renegotiation_info`.
abbrev old_hello : ServerHello
old_hello = record {
  version = 0x0303;
  random = replicate 32 7;
  session_id = [];
  suite = 0x002f;
  compression = 0;
  extensions = record { kind = 0x000b; body = 1 ∷ 0 ∷ [] } ∷ [];
}

old_hello-IsFitting : IsFitting old_hello
old_hello-IsFitting = record {
  random_32 = refl;
  session_fits = omega arith;
  suite_fits = omega arith;
  each_fit = (omega arith, omega arith, tt);
  all_fit = omega arith;
}

-- It comes in two records, the first of which is shorter than its header.
abbrev fragments : List Bytes
fragments = take 3 (server_hello old_hello) ∷ drop 3 (server_hello old_hello) ∷ []

abbrev old_peer : Peer
old_peer = record {
  reply = λ sent. (records 0x0303 fragments ++ 0x15 ∷ []) ∷ [];
  accepts = λ sent. true;
  fault = λ sent. record { timeout = true; message = codes "i/o timeout" };
}

fragments-AreFragments : AreFragments fragments
unfolding server_hello wrap_handshake
fragments-AreFragments = (omega arith, omega arith, (omega arith, omega arith, tt))

flat-fragments : flat fragments ≡ server_hello old_hello
unfolding server_hello wrap_handshake
flat-fragments = refl

short_hello : length (server_hello old_hello) ≤ 65536
unfolding server_hello wrap_handshake
short_hello = omega arith

abbrev old_host : Environment
old_host = record modern_host {
  targets = record modern_host.targets { renegotiation = some old_peer };
}

old_passes : guard_target old_host.names site ≡ none
unfolding guard_target guard_addresses is_blocked_ip to4
old_passes = refl

old-IsClean : IsClean (collected old_host options)
unfolding collected probe_protocols handshake_at cipher_accepted fetch_certificate
    fetch_certificate_at analyse_certificate probe_ciphers enumerate contains_substr has_prefix
    probe_ssl3 probe_ssl2 ask dial probe_vulnerabilities probe_export_rsa probe_export_dh
    server_selects_offered
old-IsClean = record { forward = refl; no_insecure = refl; no_export = refl; no_ssl3 = refl }

scan-insecure_renegotiation_example :
    (r : ScanResult) × (scan old_host options ≡ inr r)
    × (r.vulnerabilities.insecure_renegotiation ≡ true)
    × (r.grade ≡ Grade.f)
scan-insecure_renegotiation_example =
    scan-insecure_renegotiation old_host options old_passes refl old_peer old_hello 0x0303 fragments
      (0x15 ∷ []) refl old_hello-IsFitting short_hello refl fragments-AreFragments flat-fragments
      refl (append-nil _) old-IsClean

abbrev leaking_host : Environment
leaking_host = record modern_host {
  targets = record modern_host.targets {
    heartbleed_target = some (leaking_after (part_of_hello ∷ []));
  };
}

leaking_passes : guard_target leaking_host.names site ≡ none
unfolding guard_target guard_addresses is_blocked_ip to4
leaking_passes = refl

leaking-IsClean : IsClean (collected leaking_host options)
unfolding collected probe_protocols handshake_at cipher_accepted fetch_certificate
    fetch_certificate_at analyse_certificate probe_ciphers enumerate contains_substr has_prefix
    probe_ssl3 probe_ssl2 ask dial probe_vulnerabilities probe_export_rsa probe_export_dh
    server_selects_offered
leaking-IsClean = record { forward = refl; no_insecure = refl; no_export = refl; no_ssl3 = refl }

scan-leaks_example :
    (r : ScanResult) × (scan leaking_host options ≡ inr r)
    × (r.vulnerabilities.heartbleed ≡ true)
    × (r.grade ≡ Grade.f)
scan-leaks_example =
    scan-leaks leaking_host options leaking_passes refl (leaking_after (part_of_hello ∷ []))
      part_of_hello [] refl refl refl refl (omega arith) refl leaking-IsClean

-- ===== src/Tests/Oracles.antt =====
-- A whole scan of a modern host, whose servers for the oracle probes decrypt what they are sent.
use tlsscan.Base.{true, false, none, some, inr, ◌≡◌, refl, arith}
use tlsscan.Base.Text.{has_prefix, contains_substr}
use tlsscan.Net.{dial}
use tlsscan.Reaction.{equal}
use tlsscan.Probe.{
  probe_ssl3, probe_ssl2, ask, probe_export_rsa, probe_export_dh, server_selects_offered,
}
use tlsscan.Cbc.Padding.{bad_mac}
use tlsscan.Robot.Oracle.{bad_block, wrong_pms, right_pms}
use tlsscan.Rating.Types.{Grade, ScanResult}
use tlsscan.Scan.Address.{to4, is_blocked_ip}
use tlsscan.Scan.Guard.{guard_addresses, guard_target}
use tlsscan.Scan.Ciphers.{enumerate, probe_ciphers}
use tlsscan.Scan.Handshake.{probe_protocols, cipher_accepted, handshake_at}
use tlsscan.Scan.Certificate.{analyse_certificate, fetch_certificate, fetch_certificate_at}
use tlsscan.Scan.Vulns.{probe_vulnerabilities}
use tlsscan.Scan.Run.{Environment, Options, collected, scan}
use tlsscan.Scan.Critical.{IsClean}
use tlsscan.Scan.Oracles.{scan-false_alarm, scan-Decrypts}
use tlsscan.Tests.Service.{modern_host}
use tlsscan.Tests.Padding.{attempt, tells, telling-Receives, long_name, zero_read, request_told}
use tlsscan.Tests.Oracle.{robot_lib, oracle, site, weak_key, oracle-Decrypts, leaky}

abbrev cbc_host : Environment
cbc_host = record modern_host { targets = record modern_host.targets { cbc = λ w. attempt } }

abbrev cbc_options : Options
cbc_options = record { host = long_name; port = 443; check_vulns = true }

cbc_passes : guard_target cbc_host.names long_name ≡ none
unfolding guard_target guard_addresses is_blocked_ip to4
cbc_passes = refl

cbc-IsClean : IsClean (collected cbc_host cbc_options)
unfolding collected probe_protocols handshake_at cipher_accepted fetch_certificate
    fetch_certificate_at analyse_certificate probe_ciphers enumerate contains_substr has_prefix
    probe_ssl3 probe_ssl2 ask dial probe_vulnerabilities probe_export_rsa probe_export_dh
    server_selects_offered
cbc-IsClean = record { forward = refl; no_insecure = refl; no_export = refl; no_ssl3 = refl }

scan-false_alarm_example :
    (r : ScanResult) × (scan cbc_host cbc_options ≡ inr r)
    × (r.vulnerabilities.golden_doodle ≡ true)
    × (r.grade ≡ Grade.f)
scan-false_alarm_example =
    scan-false_alarm cbc_host cbc_options cbc_passes refl tells (λ w. telling-Receives long_name)
      (tells bad_mac) zero_read (omega arith) request_told cbc-IsClean

abbrev robot_host : Environment
robot_host = record modern_host {
  targets = record modern_host.targets {
    robot = λ w. record { library = robot_lib; target = some oracle };
  };
}

abbrev robot_options : Options
robot_options = record { host = site; port = 443; check_vulns = true }

robot_passes : guard_target robot_host.names site ≡ none
unfolding guard_target guard_addresses is_blocked_ip to4
robot_passes = refl

robot-IsClean : IsClean (collected robot_host robot_options)
unfolding collected probe_protocols handshake_at cipher_accepted fetch_certificate
    fetch_certificate_at analyse_certificate probe_ciphers enumerate contains_substr has_prefix
    probe_ssl3 probe_ssl2 ask dial probe_vulnerabilities probe_export_rsa probe_export_dh
    server_selects_offered
robot-IsClean = record { forward = refl; no_insecure = refl; no_export = refl; no_ssl3 = refl }

block_told : equal (leaky bad_block) (leaky right_pms) ≡ false
unfolding equal
block_told = refl

pms_told : equal (leaky wrong_pms) (leaky right_pms) ≡ false
unfolding equal
pms_told = refl

scan-Decrypts_example :
    (r : ScanResult) × (scan robot_host robot_options ≡ inr r)
    × (r.vulnerabilities.robot ≡ true)
    × (r.grade ≡ Grade.f)
scan-Decrypts_example =
    scan-Decrypts robot_host robot_options robot_passes refl weak_key (λ c. c) leaky
      (λ w. oracle-Decrypts) block_told pms_told robot-IsClean

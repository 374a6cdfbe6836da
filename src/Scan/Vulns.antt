-- ===== src/Scan/Vulns.antt =====
-- pkg/tlsscan/vulns.go: `probeVulnerabilities`. Each probe has connections of its own.
use tlsscan.Base.{ℕ, Bool, false, ◌&&◌, List, Option, none, some, ◌==◌, if◌then◌else◌}
use tlsscan.Net.{Peer}
use tlsscan.Rating.Types.{Protocols, CipherSummary, Vulnerabilities}
use tlsscan.Probe.{probe_export_rsa, probe_export_dh, probe_fallback_scsv_missing}
use tlsscan.Renegotiation.{probe_insecure_renegotiation}
use tlsscan.Heartbleed.{heartbleed}
use tlsscan.Robot.Exchange.{RobotAttempt, probe_robot_on}
use tlsscan.Session.Establish.{Attempt, probe_cbc}
use tlsscan.Scan.Inferred.{has_cbc, has_3des}
use tlsscan.Scan.Fallback.{fallback_probe_version}

-- Who answers each of the probes.
pub record Targets : Type 0 where
  pub heartbleed_target : Option Peer
  pub export_rsa : Option Peer
  pub export_dh : Option Peer
  pub renegotiation : Option Peer
  pub fallback : Option Peer
  pub robot : ℕ → RobotAttempt
  pub cbc : ℕ → Attempt

-- An error, or a panic, which no reply causes.
abbrev pub or_false_probe : Option Bool → Bool
or_false_probe none = false
or_false_probe (some b) = b

unfoldable pub probe_vulnerabilities :
    Targets → List ℕ → Protocols → CipherSummary → Vulnerabilities
probe_vulnerabilities targets host protocols ciphers =
    let fb = fallback_probe_version protocols in
    let cbc = probe_cbc targets.cbc host in
    record {
      heartbleed = or_false_probe (heartbleed targets.heartbleed_target);
      poodle = protocols.ssl3;
      robot = probe_robot_on targets.robot host;
      sweet32 = has_3des ciphers;
      drown = protocols.ssl2;
      freak = probe_export_rsa targets.export_rsa;
      logjam = probe_export_dh targets.export_dh;
      beast = protocols.tls10 && has_cbc ciphers;
      golden_doodle = cbc.golden_doodle;
      zombie_poodle = cbc.zombie_poodle;
      sleeping_poodle = cbc.sleeping_poodle;
      zero_length_padding_cve = cbc.cve20191559;
      insecure_renegotiation = or_false_probe (probe_insecure_renegotiation targets.renegotiation);
      tls_fallback_scsv =
          if fb == 0 then false else probe_fallback_scsv_missing targets.fallback fb;
    }

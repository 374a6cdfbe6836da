-- ===== src/Scan/Oracles.antt =====
-- pkg/tlsscan/scanner.go: a whole scan against servers that decrypt what the two oracle probes send.
use tlsscan.Base.{ℕ, ◌%◌, true, false, none, inr, length, ◌≡◌, ◌∙◌, refl, arith}
use tlsscan.Wire.{Bytes}
use tlsscan.Reaction.{Reaction, equal}
use tlsscan.Cbc.Padding.{Reception, bad_mac, accepted}
use tlsscan.Cbc.Oracle.{vec_zero_len, request}
use tlsscan.Session.{RsaPublicKey}
use tlsscan.Session.Establish.{probe_cbc}
use tlsscan.Session.Receives.{Receives}
use tlsscan.Session.Blind.{received, probe_cbc-false_alarm}
use tlsscan.Robot.Exchange.{probe_robot_on}
use tlsscan.Robot.Oracle.{
  Finding, bad_block, wrong_pms, right_pms, Decrypts, probe_robot_on-Decrypts,
}
use tlsscan.Rating.Types.{Grade, ScanResult, Vulnerabilities}
use tlsscan.Rating.Caps.{critical}
use tlsscan.Scan.Guard.{guard_target}
use tlsscan.Scan.Vulns.{probe_vulnerabilities}
use tlsscan.Scan.Run.{Environment, Options, collected, scan}
use tlsscan.Scan.Critical.{IsClean, scan-critical}

module _ (env : Environment) (options : Options)
    (permitted : guard_target env.names options.host ≡ none)
    (checks : options.check_vulns ≡ true) where
  golden_lem :
      (collected env options).vulnerabilities.golden_doodle
      ≡ (probe_cbc env.targets.cbc options.host).golden_doodle
  unfolding collected probe_vulnerabilities
  golden_lem = rw checks refl

  robot_lem :
      (collected env options).vulnerabilities.robot ≡ probe_robot_on env.targets.robot options.host
  unfolding collected probe_vulnerabilities
  robot_lem = rw checks refl

  -- Take a scan with the vulnerability checks, of a host that the guard lets pass, whose name has
  -- 15, 31, 47, … bytes, with forward secrecy and nothing for which the rating notes a cap of B or
  -- C. If every connection of the CBC probe reaches a server that follows the handshake, reacts to
  -- a record by what it receives in it alone, to the zero-length record always alike, and to the
  -- request otherwise than to a bad MAC, then the scan reports GOLDENDOODLE and grades the host F.
  pub scan-false_alarm :
      (reacts : Reception → Reaction)
      (each : (w : ℕ) → Receives (env.targets.cbc w) options.host reacts) (zero_len : Reaction)
      → ((w : ℕ)
          → reacts (received env.targets.cbc options.host reacts each w vec_zero_len) ≡ zero_len)
      → length options.host % 16 ≡ 15
      → equal (reacts bad_mac) (reacts (accepted (request options.host))) ≡ false
      → IsClean (collected env options)
      → (r : ScanResult) × (scan env options ≡ inr r)
        × (r.vulnerabilities.golden_doodle ≡ true)
        × (r.grade ≡ Grade.f)
  scan-false_alarm reacts each zero_len hz len differ clean =
      let golden =
        golden_lem
        ∙ probe_cbc-false_alarm env.targets.cbc options.host reacts each zero_len hz len differ in
      scan-critical env options (λ v. v.golden_doodle) permitted golden_is_critical golden clean
    where
      golden_is_critical : (v : Vulnerabilities) → v.golden_doodle ≡ true → critical v ≡ true
      golden_is_critical v h = ground arith

  -- Take such a scan, without a condition on the name. If every connection of the ROBOT probe
  -- reaches a server that shows the same RSA key, of 59 bytes at least, and reacts to a
  -- ClientKeyExchange by what it finds in it alone, to a right secret otherwise than to invalid
  -- padding and otherwise than to a wrong secret, then the scan reports ROBOT and grades the host
  -- F.
  pub scan-Decrypts :
      (key : RsaPublicKey) (opens : Bytes → Bytes) (reacts : Finding → Reaction)
      → ((w : ℕ) → Decrypts (env.targets.robot w) options.host key opens reacts)
      → equal (reacts bad_block) (reacts right_pms) ≡ false
      → equal (reacts wrong_pms) (reacts right_pms) ≡ false
      → IsClean (collected env options)
      → (r : ScanResult) × (scan env options ≡ inr r)
        × (r.vulnerabilities.robot ≡ true)
        × (r.grade ≡ Grade.f)
  scan-Decrypts key opens reacts each block pms clean =
      let robot =
        robot_lem
        ∙ probe_robot_on-Decrypts env.targets.robot options.host key opens reacts each
        ∙ rw (block, pms) refl in
      scan-critical env options (λ v. v.robot) permitted robot_is_critical robot clean
    where
      robot_is_critical : (v : Vulnerabilities) → v.robot ≡ true → critical v ≡ true
      robot_is_critical v h = ground arith

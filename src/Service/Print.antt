-- ===== src/Service/Print.antt =====
-- cmd/tlsscan/main.go: `printText`. What package fmt writes for a verb is the record `Format`. The
-- duration and the version of the ruleset, which a `ScanResult` leaves out, are arguments.
use tlsscan.Base.{ℕ, Bool, List, [], ◌∷◌, ◌++◌, length, ltb, if◌then◌else◌}
use mathlib.Core.List.{map}
use tlsscan.Base.Int.{ℤ, pos}
use tlsscan.Base.Text.{codes}
use tlsscan.Wire.{Bytes}
use tlsscan.Rating.Types.{
  Grade, KeyType, rsa, ecdsa, unknown, unset, Cap, certificate_trust, critical_vulnerability,
  ssl2_enabled, ssl3_enabled, no_forward_secrecy, insecure_cipher, export_cipher, ScanResult,
}

-- `%d` and `%v` of an integer, `%v` of a Boolean, and `%v` of a slice of strings.
pub record Format : Type 0 where
  pub integer : ℤ → Bytes
  pub boolean : Bool → Bytes
  pub strings : List Bytes → Bytes

unfoldable pub grade_text : Grade → Bytes
grade_text Grade.a_plus = codes "A+"
grade_text Grade.a = codes "A"
grade_text Grade.b = codes "B"
grade_text Grade.c = codes "C"
grade_text Grade.d = codes "D"
grade_text Grade.e = codes "E"
grade_text Grade.f = codes "F"
grade_text Grade.t = codes "T"
grade_text Grade.r = codes "R"

unfoldable pub cap_text : Cap → Bytes
cap_text certificate_trust = codes "certificate-trust"
cap_text critical_vulnerability = codes "critical-vulnerability"
cap_text ssl2_enabled = codes "ssl2-enabled"
cap_text ssl3_enabled = codes "ssl3-enabled"
cap_text no_forward_secrecy = codes "no-forward-secrecy"
cap_text insecure_cipher = codes "insecure-cipher"
cap_text export_cipher = codes "export-cipher"

unfoldable pub key_type_text : KeyType → Bytes
key_type_text rsa = codes "RSA"
key_type_text ecdsa = codes "ECDSA"
key_type_text unknown = codes "unknown"
key_type_text unset = []

-- A line, its end, and what is printed behind it.
abbrev pub line : Bytes → Bytes → Bytes
line text rest = text ++ 10 ∷ rest

module _ (fmt : Format) (r : ScanResult) where
  abbrev number : ℕ → Bytes
  number n = fmt.integer (pos n)

  abbrev pub host_line : Bytes
  host_line = codes "Host:   " ++ (r.host ++ (codes ":" ++ number r.port))

  abbrev pub grade_line : Bytes
  grade_line =
      codes "Grade:  "
      ++ (grade_text r.grade
          ++ (if ltb 0 (length r.grade_caps)
              then codes "  (caps: " ++ (fmt.strings (map cap_text r.grade_caps) ++ codes ")")
              else []))

  abbrev pub rating_line : Bytes
  rating_line =
      codes "Rating: "
      ++ (number r.rating.numeric
          ++ (codes "/100  (proto "
              ++ (number r.rating.protocol_score
                  ++ (codes ", kx "
                      ++ (number r.rating.key_exchange_score
                          ++ (codes ", cipher " ++ (number r.rating.cipher_score ++ codes ")")))))))

  abbrev pub protocols_line : Bytes
  protocols_line =
      codes "Protocols: TLS1.3="
      ++ (fmt.boolean r.protocols.tls13
          ++ (codes " TLS1.2="
              ++ (fmt.boolean r.protocols.tls12
                  ++ (codes " TLS1.1="
                      ++ (fmt.boolean r.protocols.tls11
                          ++ (codes " TLS1.0="
                              ++ (fmt.boolean r.protocols.tls10
                                  ++ (codes " SSL3="
                                      ++ (fmt.boolean r.protocols.ssl3
                                          ++ (codes " SSL2="
                                              ++ fmt.boolean r.protocols.ssl2))))))))))

  abbrev pub secrecy_line : Bytes
  secrecy_line = codes "Forward Secrecy: " ++ fmt.boolean r.forward_secrecy

  abbrev pub certificate_line : Bytes
  certificate_line =
      codes "Certificate: valid="
      ++ (fmt.boolean r.certificate.valid
          ++ (codes " expires in "
              ++ (fmt.integer r.certificate.days_to_expiry
                  ++ (codes " days, "
                      ++ (key_type_text r.certificate.key_type
                          ++ (codes " "
                              ++ (number r.certificate.key_bits
                                  ++ (codes "-bit, host-match="
                                      ++ fmt.boolean r.certificate.hostname_match))))))))

  abbrev pub ciphers_line : Bytes
  ciphers_line =
      codes "Ciphers: "
      ++ (number (length r.ciphers.strong)
          ++ (codes " strong, "
              ++ (number (length r.ciphers.weak)
                  ++ (codes " weak, "
                      ++ (number (length r.ciphers.insecure) ++ codes " insecure")))))

  -- Nine of the fourteen vulnerabilities.
  abbrev pub vulnerabilities_line : Bytes
  vulnerabilities_line =
      codes "Vulns: heartbleed="
      ++ (fmt.boolean r.vulnerabilities.heartbleed
          ++ (codes " drown="
              ++ (fmt.boolean r.vulnerabilities.drown
                  ++ (codes " freak="
                      ++ (fmt.boolean r.vulnerabilities.freak
                          ++ (codes " logjam="
                              ++ (fmt.boolean r.vulnerabilities.logjam
                                  ++ (codes " poodle="
                                      ++ (fmt.boolean r.vulnerabilities.poodle
                                          ++ vulnerabilities_rest)))))))))
    where
      vulnerabilities_rest : Bytes
      vulnerabilities_rest =
          codes " beast="
          ++ (fmt.boolean r.vulnerabilities.beast
              ++ (codes " sweet32="
                  ++ (fmt.boolean r.vulnerabilities.sweet32
                      ++ (codes " insecure_reneg="
                          ++ (fmt.boolean r.vulnerabilities.insecure_renegotiation
                              ++ (codes " fallback_scsv_missing="
                                  ++ fmt.boolean r.vulnerabilities.tls_fallback_scsv))))))

  abbrev pub errors_line : Bytes
  errors_line = codes "Errors: " ++ fmt.strings r.errors

  abbrev pub scanned_line : ℕ → Bytes → Bytes
  scanned_line duration_ms rules =
      codes "Scanned in " ++ (number duration_ms ++ (codes "ms (ruleset " ++ (rules ++ codes ")")))

  -- What goes to the standard output.
  unfoldable pub print_text : ℕ → Bytes → Bytes
  print_text duration_ms rules =
      let scanned = line (scanned_line duration_ms rules) [] in
      line host_line (
        line grade_line (
          line rating_line (
            line protocols_line (
              line secrecy_line (
                line certificate_line (
                  line ciphers_line (
                    line vulnerabilities_line
                      (if ltb 0 (length r.errors) then line errors_line scanned else scanned))))))))

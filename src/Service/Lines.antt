-- ===== src/Service/Lines.antt =====
-- cmd/tlsscan/main.go: the text that the command prints, read line by line.
use tlsscan.Base.{
  ℕ, Bool, true, false, List, [], ◌∷◌, length, ltb, ◌==◌, if◌then◌else◌, ◌≡◌, ◌∙◌, refl, ap,
}
use tlsscan.Wire.{Bytes}
use tlsscan.Rating.Types.{ScanResult}
use tlsscan.Service.Print.{
  Format, line, host_line, grade_line, rating_line, protocols_line, secrecy_line, certificate_line,
  ciphers_line, vulnerabilities_line, errors_line, scanned_line, print_text,
}

abbrev push : ℕ → List Bytes → List Bytes
push c [] = (c ∷ []) ∷ []
push c (l ∷ ls) = (c ∷ l) ∷ ls

-- A line ends at a byte 10.
unfoldable pub lines_of : Bytes → List Bytes
lines_of [] = []
lines_of (c ∷ s) = if c == 10 then [] ∷ lines_of s else push c (lines_of s)

abbrev pub OneLine : Bytes → Type 0
OneLine [] = Unit
OneLine (c ∷ s) = ((c == 10) ≡ false) × OneLine s

lines_of-line : (l rest : Bytes) → OneLine l → lines_of (line l rest) ≡ l ∷ lines_of rest
unfolding lines_of
lines_of-line [] rest h = refl
lines_of-line (c ∷ l) rest h = rw (h.0, lines_of) (ap (push c) (lines_of-line l rest h.1))

-- No part of the text has a line break of its own.
pub record AreLines (fmt : Format) (r : ScanResult) (duration_ms : ℕ) (rules : Bytes) : Type 0 where
  pub host : OneLine (host_line fmt r)
  pub grade : OneLine (grade_line fmt r)
  pub rating : OneLine (rating_line fmt r)
  pub protocols : OneLine (protocols_line fmt r)
  pub secrecy : OneLine (secrecy_line fmt r)
  pub certificate : OneLine (certificate_line fmt r)
  pub ciphers : OneLine (ciphers_line fmt r)
  pub vulnerabilities : OneLine (vulnerabilities_line fmt r)
  pub errors : OneLine (errors_line fmt r)
  pub scanned : OneLine (scanned_line fmt r duration_ms rules)

last_lines :
    (b : Bool) (errors scanned : Bytes)
    → OneLine errors
    → OneLine scanned
    → lines_of (if b then line errors (line scanned []) else line scanned [])
      ≡ (if b then errors ∷ scanned ∷ [] else scanned ∷ [])
unfolding lines_of
last_lines true errors scanned e s =
    lines_of-line errors (line scanned []) e ∙ ap (λ ls. errors ∷ ls) (lines_of-line scanned [] s)
last_lines false errors scanned e s = lines_of-line scanned [] s

-- A line before a text that reads back.
before :
    (l rest : Bytes) {ls : List Bytes}
    → OneLine l
    → lines_of rest ≡ ls
    → lines_of (line l rest) ≡ l ∷ ls
before l rest h e = lines_of-line l rest h ∙ ap (λ ls. l ∷ ls) e

-- Where no part of it has a line break of its own, the text reads back, line by line, as host,
-- grade, rating, protocols, forward secrecy, certificate, ciphers and vulnerabilities, the errors
-- exactly if there are any, and the duration.
pub lines_of-print_text :
    (fmt : Format) (r : ScanResult) (duration_ms : ℕ) (rules : Bytes)
    → AreLines fmt r duration_ms rules
    → lines_of (print_text fmt r duration_ms rules)
      ≡ host_line fmt r
        ∷ grade_line fmt r
        ∷ rating_line fmt r
        ∷ protocols_line fmt r
        ∷ secrecy_line fmt r
        ∷ certificate_line fmt r
        ∷ ciphers_line fmt r
        ∷ vulnerabilities_line fmt r
        ∷ (if ltb 0 (length r.errors)
            then errors_line fmt r ∷ scanned_line fmt r duration_ms rules ∷ []
            else scanned_line fmt r duration_ms rules ∷ [])
unfolding print_text
lines_of-print_text fmt r duration_ms rules h = before (host_line fmt r) _ h.host (
    before (grade_line fmt r) _ h.grade (
      before (rating_line fmt r) _ h.rating (
        before (protocols_line fmt r) _ h.protocols (
          before (secrecy_line fmt r) _ h.secrecy (
            before (certificate_line fmt r) _ h.certificate (
              before (ciphers_line fmt r) _ h.ciphers (
                before (vulnerabilities_line fmt r) _ h.vulnerabilities (
                  last_lines (ltb 0 (length r.errors)) (errors_line fmt r)
                    (scanned_line fmt r duration_ms rules) h.errors h.scanned))))))))

-- ===== src/Service.antt =====
-- cmd/headerforge-tls/main.go: `handleScan`; cmd/tlsscan/main.go: the exit of the command. The
-- decoding of a request, the flags and the texts that are written are left to the Go library.
pub mod Answers
pub mod Print
pub mod Lines
use tlsscan.Base.{
  ◌∷◌, ◌⊎◌, ℕ, ◌+◌, ◌*◌, Bool, true, false, not, List, [], inl, inr, Option, none, some, ltb, ◌==◌,
  if◌then◌else◌,
}
use tlsscan.Base.Int.{ℤ, pos, above}
use tlsscan.Base.Text.{codes}
use tlsscan.Rating.Types.{ScanResult}
use tlsscan.Scan.Address.{same_bytes}
use tlsscan.Scan.Guard.{GuardError}
use tlsscan.Scan.Run.{Environment, Options, scan}

-- Milliseconds.
pub record ScanRequest : Type 0 where
  pub host : List ℕ
  pub port : ℕ
  pub timeout_ms : ℤ
  pub check_vulns : Bool

pub data Body : Type 0 where
  method_not_allowed bad_request : Body
  scan_error : GuardError → Body
  scan_result : ScanResult → Body

pub record Response : Type 0 where
  pub status : ℕ
  pub body : Body

abbrev millis : ℤ → ℕ
millis (pos n) = n
millis _ = 0

-- In milliseconds; 15 seconds by default.
abbrev pub timeout_of : ℤ → ℕ
timeout_of t = if above 0 t then millis t else 15000

abbrev pub options_of : ScanRequest → Options
options_of req = record { host = req.host; port = req.port; check_vulns = req.check_vulns }

abbrev pub respond : GuardError ⊎ ScanResult → Response
respond (inl e) = record { status = 422; body = scan_error e }
respond (inr res) = record { status = 200; body = scan_result res }

-- The environment of a scan depends on the timeout that it is given.
module _ (world : ℕ → Environment) where
  abbrev pub answer : Option ScanRequest → Response
  answer none = record { status = 400; body = bad_request }
  answer (some req) = respond (scan (world (timeout_of req.timeout_ms)) (options_of req))

  -- `request` is what the decoder makes of the body.
  unfoldable pub handle_scan : List ℕ → Option ScanRequest → Response
  handle_scan method request =
      if not (same_bytes method (codes "POST"))
      then record { status = 405; body = method_not_allowed }
      else answer request

abbrev pub exit_code : GuardError ⊎ ScanResult → ℕ
exit_code (inl e) = 1
exit_code (inr res) = 0

-- The exit status of the command with these arguments, after the flags.
unfoldable pub command : Environment → List (List ℕ) → ℕ → Bool → ℕ
command env (host ∷ []) port vulns =
    exit_code (scan env (record { host = host; port = port; check_vulns = vulns }))
command env _ port vulns = 2

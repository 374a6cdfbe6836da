-- ===== src/Service/Answers.antt =====
-- cmd/headerforge-tls/main.go: which requests are answered with the result of a scan.
use tlsscan.Base.{ℕ, List, Option, none, some, ◌≡◌, ◌↔◌, refl, arith, inl, inr, Bool-cases}
use tlsscan.Base.Text.{codes}
use tlsscan.Scan.Address.{same_bytes}
use tlsscan.Scan.Guard.{GuardError, guard_target}
use tlsscan.Scan.Internal.{same_bytes_iff}
use tlsscan.Scan.Permitted.{Permitted, guard_target_iff}
use tlsscan.Scan.Run.{Environment, scan, scan_after}
use tlsscan.Service.{ScanRequest, timeout_of, options_of, respond, answer, handle_scan}

-- A POST with a request that can be decoded, for a host that the guard permits.
pub record IsServed (world : ℕ → Environment) (method : List ℕ) (request : Option ScanRequest)
    : Type 0 where
  pub is_post : method ≡ codes "POST"
  pub decoded : ScanRequest
  pub is_decoded : request ≡ some decoded
  pub is_permitted : Permitted (world (timeout_of decoded.timeout_ms)).names decoded.host

module _ (world : ℕ → Environment) where
  served :
      (request : Option ScanRequest)
      → (answer world request).status ≡ 200
      → (req : ScanRequest) × (request ≡ some req)
        × (guard_target (world (timeout_of req.timeout_ms)).names req.host ≡ none)
  unfolding scan
  served none h = absurd (omega (arith, h))
  served (some req) h =
      (req, refl, go (guard_target (world (timeout_of req.timeout_ms)).names req.host) h)
    where
      go :
          (o : Option GuardError)
          → (respond (scan_after (world (timeout_of req.timeout_ms)) (options_of req) o)).status
            ≡ 200
          → o ≡ none
      go none h = refl
      go (some e) h = absurd (omega (arith, h))

  -- `handleScan` answers with the status 200 exactly if the method is POST, the body can be
  -- decoded and the guard permits the host of the request.
  pub handle_scan_iff :
      (method : List ℕ) (request : Option ScanRequest)
      → ((handle_scan world method request).status ≡ 200) ↔ IsServed world method request
  unfolding handle_scan scan
  handle_scan_iff method request = (sound, complete)
    where
      sound : (handle_scan world method request).status ≡ 200 → IsServed world method request
      sound h = elim (Bool-cases (same_bytes method (codes "POST"))) [
        | inl e ↦
            let (req, q, g) = served request (rw e at h) in
            record {
              is_post = (same_bytes_iff method (codes "POST")).0 e;
              decoded = req;
              is_decoded = q;
              is_permitted =
                  (guard_target_iff (world (timeout_of req.timeout_ms)).names req.host).0 g;
            }
        | inr e ↦ let n : 405 ≡ 200 = rw e at h in absurd (omega (arith, n))
      ]

      complete : IsServed world method request → (handle_scan world method request).status ≡ 200
      complete s =
          let req = s.decoded in
          let g =
            (guard_target_iff (world (timeout_of req.timeout_ms)).names req.host).1
              s.is_permitted in
          rw ((same_bytes_iff method (codes "POST")).1 s.is_post, s.is_decoded, g) refl

-- ===== src/Parse.antt =====
-- The parsers of handshake messages that a server sends: `serverHelloHasExtension` (probes.go),
-- `parseServerHelloSuite` and `parseECDHEServerKeyExchange` (cbc.go), `parseLeafRSAKey` (robot.go).
-- An index or a slice out of range panics, which is `none`.
pub mod Slice
pub mod Safe
pub mod RoundTrip
use tlsscan.Base.{
  ℕ, zero, suc, ◌+◌, ◌-◌, ◌<◌, Bool, true, false, not, ◌||◌, List, [], ◌∷◌, Option, none, some,
  length, ltb, leb, ◌==◌, if◌then◌else◌,
}
use tlsscan.Wire.{Bytes, get16, get24}
use tlsscan.Parse.Slice.{◌>>=◌, index, slice, read16, read24}

-- The loop over the extensions from `p` up to `end`. Each round moves `p` by at least 4.
unfoldable pub extension_loop : ℕ → Bytes → ℕ → ℕ → ℕ → Option Bool
extension_loop zero msg want p end = some false
extension_loop (suc fuel) msg want p end = elim (leb (p + 4) end) [
  | false ↦ some false
  | true ↦ (do
    etype ← read16 msg p
    elen ← read16 msg (p + 2)
    (elim (etype == want) [
      | true ↦ some true
      | false ↦ extension_loop fuel msg want (p + 4 + elen) end
    ]))
]

unfoldable pub extensions_at : Bytes → ℕ → ℕ → Option Bool
extensions_at msg want p =
    if ltb (length msg) p then some false else if ltb (length msg) (p + 2) then some false else (do
      total ← read16 msg p
      let end = p + 2 + total
      extension_loop (length msg) msg want (p + 2)
          (if ltb (length msg) end then length msg else end))

-- Header (4), version (2) and random (32), then the session id, the suite (2) and the compression
-- method (1).
unfoldable pub server_hello_has_extension : Bytes → ℕ → Option Bool
server_hello_has_extension msg want =
    if ltb (length msg) 39
    then some false
    else (do sid_len ← index msg 38; extensions_at msg want (39 + sid_len + 3))

-- The results are the chosen suite and the server's random, if the message is complete.
unfoldable pub parse_server_hello_suite : Bytes → Option (Option (ℕ × Bytes))
parse_server_hello_suite msg = if ltb (length msg) 39 then some none else (do
  server_random ← slice msg 6 38
  sid_len ← index msg 38
  let p = 39 + sid_len
  if ltb (length msg) (p + 2)
      then some none
      else (do suite ← read16 msg p; some (some (suite, server_random))))

-- The results are the curve and the server's point.
unfoldable pub parse_ecdhe_server_key_exchange : Bytes → Option (Option (ℕ × Bytes))
parse_ecdhe_server_key_exchange msg = if ltb (length msg) 8 then some none else (do
  curve_type ← index msg 4
  if not (curve_type == 0x03) then some none else (do
    curve_id ← read16 msg 5
    plen ← index msg 7
    if ltb (length msg) (8 + plen)
        then some none
        else (do point ← slice msg 8 (8 + plen); some (some (curve_id, point)))))

-- The DER bytes of the leaf certificate, which `x509.ParseCertificate` then reads.
unfoldable pub leaf_at : Bytes → ℕ → Option (Option Bytes)
leaf_at msg cert_len =
    if (cert_len == 0) || ltb (length msg) (10 + cert_len)
    then some none
    else (do der ← slice msg 10 (10 + cert_len); some (some der))

unfoldable pub leaf_certificate : Bytes → Option (Option Bytes)
leaf_certificate msg = if ltb (length msg) 10 then some none else (do
  certs_len ← read24 msg 4
  if ltb (length msg) (7 + certs_len)
      then some none
      else if ltb (length msg) 10
      then some none
      else (do cert_len ← read24 msg 7; leaf_at msg cert_len))

-- `parseLeafRSAKey`, where `rsa_key` is what `x509.ParseCertificate` and the type assertion on the
-- public key make of a certificate.
unfoldable pub parse_leaf_rsa_key : {K : Type 0} → (Bytes → Option K) → Bytes → Option (Option K)
parse_leaf_rsa_key rsa_key msg = do
  der ← leaf_certificate msg
  some (elim der [ none ↦ none | some d ↦ rsa_key d ])

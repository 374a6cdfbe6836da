-- ===== src/Wire/Hello.antt =====
-- The ClientHello messages: `clientHelloTLS` (probes.go), `sniExtension` and `robotClientHello`
-- (robot.go), `cbcClientHello` and `cbcExtensions` (cbc.go), `clientHelloSSL3` and
-- `clientHelloSSL2` (legacy.go), `clientHelloWithHeartbeat` and `maliciousHeartbeat`
-- (heartbleed.go).
use Prim.Native.Nat.{bit_or}
use tlsscan.Base.{ℕ, ◌+◌, ◌/◌, List, [], ◌∷◌, ◌++◌, length, replicate, ltb, if◌then◌else◌}
use tlsscan.Wire.{Bytes, byte, put16, put24}
use tlsscan.Wire.Headers.{
  record_handshake, record_heartbeat, version_tls12, framed, wrap_tls12_record, wrap_ssl3_record,
  wrap_record, wrap_handshake,
}

-- The loop over the cipher suites.
unfoldable pub suite_bytes : List ℕ → Bytes
suite_bytes [] = []
suite_bytes (s ∷ ss) = put16 s ++ suite_bytes ss

-- A length of 16 bits before the bytes that it counts.
abbrev pub counted16 : Bytes → Bytes
counted16 b = put16 (length b) ++ b

-- The body of `clientHelloTLS`: version, 32 zero bytes, no session, suites, null compression, and
-- the extensions, which are left out if there are none.
unfoldable pub hello_body : ℕ → List ℕ → Bytes → Bytes
unfolding suite_bytes
hello_body client_version suites extensions =
    put16 client_version
    ++ (replicate 32 0
        ++ (0 ∷ []
            ++ (counted16 (suite_bytes suites)
                ++ (0x01 ∷ 0x00 ∷ []
                    ++ (if ltb 0 (length extensions) then counted16 extensions else [])))))

unfoldable pub client_hello_tls : ℕ → ℕ → List ℕ → Bytes → Bytes
unfolding hello_body
client_hello_tls record_version client_version suites extensions =
    let body = hello_body client_version suites extensions in
    let hs = 0x01 ∷ (put24 (length body) ++ body) in framed record_version record_handshake hs

-- `sniExtension`: nothing for the empty host, else a list of one host name.
unfoldable pub sni_extension : Bytes → Bytes
sni_extension [] = []
sni_extension (c ∷ cs) =
    let name = c ∷ cs in
    let entry = 0x00 ∷ counted16 name in let list = counted16 entry in 0x00 ∷ 0x00 ∷ counted16 list

abbrev pub rsa_kex_suites : List ℕ
rsa_kex_suites = 0x009d ∷ 0x009c ∷ 0x003d ∷ 0x003c ∷ 0x0035 ∷ 0x002f ∷ 0x000a ∷ []

unfoldable pub robot_client_hello : Bytes → Bytes
robot_client_hello host =
    client_hello_tls version_tls12 version_tls12 rsa_kex_suites (sni_extension host)

abbrev pub cbc_suites : List ℕ
cbc_suites = 0xc013 ∷ 0xc014 ∷ 0x002f ∷ 0x0035 ∷ []

abbrev pub curves : List ℕ
curves = 0x001d ∷ 0x0017 ∷ 0x0018 ∷ 0x0019 ∷ []

abbrev pub signature_algorithms : List ℕ
signature_algorithms = 0x0401 ∷ 0x0501 ∷ 0x0601 ∷ 0x0201 ∷ 0x0403 ∷ 0x0503 ∷ 0x0603 ∷ []

-- An extension whose body is a list with its own length: type, length, list length, list.
abbrev pub list_extension : ℕ → Bytes → Bytes
list_extension ext b = put16 ext ++ (put16 (length b + 2) ++ counted16 b)

unfoldable pub cbc_extensions : Bytes → Bytes
unfolding suite_bytes
cbc_extensions host =
    sni_extension host
    ++ (list_extension 0x000a (suite_bytes curves)
        ++ (0x00 ∷ 0x0b ∷ 0x00 ∷ 0x02 ∷ 0x01 ∷ 0x00 ∷ []
            ++ list_extension 0x000d (suite_bytes signature_algorithms)))

unfoldable pub cbc_client_hello : Bytes → Bytes → Bytes
cbc_client_hello host client_random =
    let ext = cbc_extensions host in
    let body =
      0x03 ∷ 0x03 ∷ []
      ++ (client_random
          ++ (0x00 ∷ []
              ++ (counted16 (suite_bytes cbc_suites) ++ (0x01 ∷ 0x00 ∷ [] ++ counted16 ext)))) in
    wrap_tls12_record record_handshake (wrap_handshake 0x01 body)

unfoldable pub client_hello_ssl3 : Bytes
unfolding suite_bytes
client_hello_ssl3 =
    let suites = suite_bytes (0x002f ∷ 0x0035 ∷ 0x000a ∷ 0x0005 ∷ []) in
    let body =
      0x03 ∷ 0x00 ∷ []
      ++ (replicate 32 0 ++ (0x00 ∷ [] ++ (counted16 suites ++ 0x01 ∷ 0x00 ∷ []))) in
    wrap_ssl3_record record_handshake (0x01 ∷ (put24 (length body) ++ body))

abbrev cipher_specs : Bytes
cipher_specs =
    0x01 ∷ 0x00 ∷ 0x80 ∷ 0x02 ∷ 0x00 ∷ 0x80 ∷ 0x04 ∷ 0x00 ∷ 0x80 ∷ 0x06 ∷ 0x00 ∷ 0x40 ∷ 0x07 ∷ 0x00
    ∷ 0xc0 ∷ []

unfoldable pub client_hello_ssl2 : Bytes
client_hello_ssl2 =
    let challenge : Bytes = replicate 16 0 in
    let body : Bytes =
      0x01 ∷ 0x00 ∷ 0x02 ∷ []
      ++ (put16 (length cipher_specs)
          ++ (0x00 ∷ 0x00 ∷ [] ++ (put16 (length challenge) ++ (cipher_specs ++ challenge)))) in
    bit_or 0x80 (byte (length body / 256)) ∷ byte (length body) ∷ body

-- The length bytes 1 to 3 are written once the message is complete: `len(hello) - 4`.
unfoldable pub client_hello_with_heartbeat : Bytes
client_hello_with_heartbeat =
    let ext : Bytes = 0x00 ∷ 0x0f ∷ 0x00 ∷ 0x01 ∷ 0x01 ∷ [] in
    let body : Bytes =
      0x03 ∷ 0x02 ∷ []
      ++ (replicate 32 0
          ++ (0x00 ∷ 0x00 ∷ 0x02 ∷ 0x00 ∷ 0x2f ∷ 0x01 ∷ 0x00 ∷ [] ++ counted16 ext)) in
    wrap_record record_handshake (0x01 ∷ (put24 (length body) ++ body))

unfoldable pub malicious_heartbeat : Bytes
malicious_heartbeat = wrap_record record_heartbeat (0x01 ∷ 0x40 ∷ 0x00 ∷ 0x01 ∷ [])

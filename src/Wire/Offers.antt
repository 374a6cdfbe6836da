-- ===== src/Wire/Offers.antt =====
-- `clientHelloTLS` (probes.go), `robotClientHello` (robot.go) and `cbcClientHello` (cbc.go) as a server
-- reads them.
use tlsscan.Base.{
  ℕ, ◌+◌, ◌≤◌, ◌<◌, List, [], ◌∷◌, ◌++◌, Option, none, some, length, replicate, ◌==◌, if◌then◌else◌,
  ◌≡◌, ◌∙◌, refl, sym, ap, arith, length-append, append-nil, append_assoc,
}
use tlsscan.Wire.{Bytes, put16, get16-put16}
use tlsscan.Wire.Headers.{version_tls12, wrap_tls12_record, wrap_handshake}
use tlsscan.Wire.Hello.{
  suite_bytes, counted16, hello_body, client_hello_tls, sni_extension, rsa_kex_suites,
  robot_client_hello, cbc_suites, curves, signature_algorithms, cbc_extensions, cbc_client_hello,
}
use tlsscan.Wire.Grammar.{
  Extension, encode, Fit, extension_block, read_client_hello, read_server_name, read_bytes,
}
use tlsscan.Wire.Reading.{
  FitPairs, block, hello_of, extension_block-block, extension_block-counted16,
  read_client_hello-layout, read_bytes-append,
}

length-suite_bytes : (s : ℕ) (ss : List ℕ) → 0 < length (suite_bytes (s ∷ ss))
unfolding suite_bytes
length-suite_bytes s ss = omega arith

-- A server that reads a ClientHello of `clientHelloTLS`, with at least one suite, whose suites and
-- extensions take at most 16300 bytes, finds exactly the versions, suites and extensions that were
-- given, 32 zeros, no session and null compression.
pub read_client_hello-client_hello_tls :
    (rv v s : ℕ) (ss : List ℕ) (xs : List Extension)
    → rv < 65536
    → v < 65536
    → FitPairs (s ∷ ss)
    → Fit xs
    → length (suite_bytes (s ∷ ss)) + length (encode xs) ≤ 16300
    → read_client_hello (client_hello_tls rv v (s ∷ ss) (encode xs))
      ≡ some (hello_of rv v (replicate 32 0) (s ∷ ss) xs)
unfolding client_hello_tls hello_body
read_client_hello-client_hello_tls rv v s ss xs rv_fits v_fits suites_fit fit h =
    let ext = block (encode xs) in
    read_client_hello-layout rv v (replicate 32 0) (s ∷ ss) ext xs v_fits refl suites_fit
      (length-suite_bytes s ss) (extension_block-block xs fit (omega arith)) rv_fits
      (let e : length ext ≤ length (encode xs) + 2 = ground arith in
        omega (arith, length-append (suite_bytes (s ∷ ss)) (0x01 ∷ 0x00 ∷ [] ++ ext)))
      (omega arith)

-- The server_name extension, which is left out for the empty host.
abbrev pub name_extensions : Bytes → List Extension
name_extensions [] = []
name_extensions (c ∷ cs) =
    record { kind = 0x0000; body = counted16 (0x00 ∷ counted16 (c ∷ cs)) } ∷ []

-- The host name in the first server_name extension.
abbrev pub server_name : List Extension → Option Bytes
server_name [] = none
server_name (x ∷ xs) = if x.kind == 0x0000 then read_server_name x.body else server_name xs

abbrev pub named : Bytes → Option Bytes
named [] = none
named (c ∷ cs) = some (c ∷ cs)

sni_extension-encode : (host : Bytes) → sni_extension host ≡ encode (name_extensions host)
unfolding sni_extension
sni_extension-encode [] = refl
sni_extension-encode (c ∷ cs) = rw append-nil

name_extensions-Fit : (host : Bytes) → length host ≤ 16000 → Fit (name_extensions host)
name_extensions-Fit [] h = tt
name_extensions-Fit (c ∷ cs) h = (omega arith, omega arith, tt)

length-name_extensions : (host : Bytes) → length (encode (name_extensions host)) ≤ length host + 9
length-name_extensions [] = omega arith
length-name_extensions (c ∷ cs) = rw append-nil (omega arith)

read_whole : (b : Bytes) → read_bytes b (length b) ≡ some (b, [])
read_whole b = ap (λ s. read_bytes s (length b)) (sym (append-nil b)) ∙ read_bytes-append b []

server_name-name_extensions :
    (host : Bytes) (xs : List Extension)
    → length host ≤ 16000
    → server_name xs ≡ none
    → server_name (name_extensions host ++ xs) ≡ named host
unfolding read_server_name
server_name-name_extensions [] xs h e = e
server_name-name_extensions (c ∷ cs) xs h e =
    let name = c ∷ cs in
    let entry = 0x00 ∷ counted16 name in
    rw (get16-put16 (length entry) (omega arith)) (
      rw (read_whole entry)
        (rw (get16-put16 (length name) (omega arith)) (rw (read_whole name) refl)))

-- A server that reads the ClientHello of the ROBOT probe, for a host name of at most 16000 bytes,
-- finds TLS 1.2, the seven suites of RSA key exchange, and the host as the server name.
pub read_client_hello-robot_client_hello :
    (host : Bytes)
    → length host ≤ 16000
    → (read_client_hello (robot_client_hello host)
        ≡ some (
            hello_of version_tls12 version_tls12
              (replicate 32 0)
              rsa_kex_suites
              (name_extensions host)))
      × (server_name (name_extensions host) ≡ named host)
unfolding robot_client_hello suite_bytes
read_client_hello-robot_client_hello host h = (
  rw (sni_extension-encode host) (
      read_client_hello-client_hello_tls version_tls12 version_tls12 0x009d _ (name_extensions host)
        (omega arith) (omega arith) (omega arith) (name_extensions-Fit host (omega arith))
        (omega (arith, length-name_extensions host))),
  ap server_name (sym (append-nil (name_extensions host)))
      ∙ server_name-name_extensions host [] (omega arith) refl,
)

-- What the CBC probe offers beside the name: curves, uncompressed points, signature algorithms.
abbrev pub cbc_offer : List Extension
cbc_offer =
    record { kind = 0x000a; body = counted16 (suite_bytes curves) }
    ∷ record { kind = 0x000b; body = 0x01 ∷ 0x00 ∷ [] }
    ∷ record { kind = 0x000d; body = counted16 (suite_bytes signature_algorithms) }
    ∷ []

encode-append : (xs ys : List Extension) → encode (xs ++ ys) ≡ encode xs ++ encode ys
encode-append [] ys = refl
encode-append (x ∷ xs) ys =
    ap (λ r. put16 x.kind ++ (put16 (length x.body) ++ r))
      (ap (λ r. x.body ++ r) (encode-append xs ys)
        ∙ sym (append_assoc x.body (encode xs) (encode ys)))

Fit-append : (xs ys : List Extension) → Fit xs → Fit ys → Fit (xs ++ ys)
Fit-append [] ys f g = g
Fit-append (x ∷ xs) ys f g = (f.0, f.1, Fit-append xs ys f.2 g)

cbc_extensions-encode :
    (host : Bytes) → cbc_extensions host ≡ encode (name_extensions host ++ cbc_offer)
unfolding cbc_extensions suite_bytes
cbc_extensions-encode host =
    ap (λ x. x ++ encode cbc_offer) (sni_extension-encode host)
    ∙ sym (encode-append (name_extensions host) cbc_offer)

-- A server that reads the ClientHello of the CBC probe, for a host name of at most 16000 bytes,
-- finds TLS 1.2, the random bytes of the client, the four CBC suites, the host as the server name,
-- and behind it the curves, the point formats and the signature algorithms.
pub read_client_hello-cbc_client_hello :
    (host random : Bytes)
    → length host ≤ 16000
    → length random ≡ 32
    → (read_client_hello (cbc_client_hello host random)
        ≡ some (
            hello_of version_tls12 version_tls12 random cbc_suites
              (name_extensions host ++ cbc_offer)))
      × (server_name (name_extensions host ++ cbc_offer) ≡ named host)
unfolding cbc_client_hello wrap_tls12_record wrap_handshake suite_bytes
read_client_hello-cbc_client_hello host random h r =
    let xs = name_extensions host ++ cbc_offer in
    let fit =
      Fit-append (name_extensions host) cbc_offer (name_extensions-Fit host h) (omega arith) in
    let size : length (encode xs) ≤ length host + 49 =
      let e = ap length (encode-append (name_extensions host) cbc_offer) in
      omega (
        arith,
        length-append (encode (name_extensions host)) (encode cbc_offer),
        length-name_extensions host,
      ) in
    let ext = counted16 (encode xs) in
    let are : extension_block ext ≡ some xs = extension_block-counted16 xs fit (omega arith) in
    (
      rw (cbc_extensions-encode host) (
          read_client_hello-layout version_tls12 version_tls12 random cbc_suites ext xs
            (omega arith) r (omega arith)
            (length-suite_bytes 0xc013 (0xc014 ∷ 0x002f ∷ 0x0035 ∷ [])) are (omega arith)
            (omega (
              arith,
              length-append random
                  (0x00 ∷ [] ++ (counted16 (suite_bytes cbc_suites) ++ (0x01 ∷ 0x00 ∷ [] ++ ext))),
            ))
            (omega arith)),
      server_name-name_extensions host cbc_offer h refl,
    )

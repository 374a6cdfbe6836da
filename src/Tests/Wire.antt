-- ===== src/Tests/Wire.antt =====
-- The ClientHello messages at concrete hosts and suites.
use tlsscan.Base.{List, [], ◌∷◌, ◌++◌, some, replicate, ◌≡◌, refl, arith}
use tlsscan.Base.Text.{codes}
use tlsscan.Wire.{Bytes}
use tlsscan.Wire.Hello.{client_hello_tls, cbc_suites, cbc_client_hello, suite_bytes}
use tlsscan.Wire.Headers.{version_tls10, version_tls12}
use tlsscan.Wire.Grammar.{Extension, encode, read_client_hello}
use tlsscan.Wire.Reading.{hello_of}
use tlsscan.Wire.Offers.{
  name_extensions, cbc_offer, server_name, read_client_hello-client_hello_tls,
  read_client_hello-cbc_client_hello,
}

abbrev renegotiation : List Extension
renegotiation = record { kind = 0xff01; body = 0x00 ∷ [] } ∷ []

read_client_hello-client_hello_tls_example :
    read_client_hello
      (client_hello_tls version_tls10 version_tls12 (0xc02f ∷ 0x002f ∷ []) (encode renegotiation))
    ≡ some
        (hello_of version_tls10 version_tls12 (replicate 32 0) (0xc02f ∷ 0x002f ∷ []) renegotiation)
unfolding suite_bytes
read_client_hello-client_hello_tls_example =
    read_client_hello-client_hello_tls version_tls10 version_tls12 0xc02f (0x002f ∷ [])
      renegotiation (omega arith) (omega arith) (omega arith) (omega arith) (omega arith)

abbrev site : Bytes
site = codes "example.com"

read_client_hello-cbc_client_hello_example :
    (read_client_hello (cbc_client_hello site (replicate 32 7))
      ≡ some (
          hello_of version_tls12 version_tls12
            (replicate 32 7)
            cbc_suites
            (name_extensions site ++ cbc_offer)))
    × (server_name (name_extensions site ++ cbc_offer) ≡ some site)
read_client_hello-cbc_client_hello_example =
    read_client_hello-cbc_client_hello site (replicate 32 7) (omega arith) refl

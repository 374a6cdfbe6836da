-- ===== src/Tests/Scan.antt =====
-- vulns.go on concrete names and versions.
use tlsscan.Base.{ℕ, Bool, false, ◌==◌, ◌||◌, true, List, [], ◌∷◌, ◌≡◌}
use tlsscan.Base.Text.{codes}
use tlsscan.Scan.Ciphers.{
  CatalogEntry, strong_class, weak_class, cipher_catalog, probe_ciphers, probe_ciphers_lem,
}
use tlsscan.Scan.Order.{with_ciphers, rate_order}
use tlsscan.Rating.Caps.{rate}
use mathlib.Core.List.Perm
use tlsscan.Tests.Rating.{modern}

abbrev names : List (List ℕ)
names = codes "RSA_AES_128_GCM" ∷ codes "RSA_3DES_EDE_CBC_SHA" ∷ []

-- A server that takes the two CBC suites and nothing else, visited in two orders.
abbrev takes_cbc : ℕ → Bool
takes_cbc suite = suite == 0xc013 || suite == 0x002f

probe_ciphers_lem_example : probe_ciphers takes_cbc cipher_catalog ≡ (
  record {
    strong = [];
    weak = codes "ECDHE_RSA_AES_128_CBC_SHA" ∷ codes "RSA_AES_128_CBC_SHA" ∷ [];
    insecure = [];
    server_preferred = false;
  },
  true,
)
probe_ciphers_lem_example = probe_ciphers_lem takes_cbc cipher_catalog

abbrev first_entry : CatalogEntry
first_entry = record {
  suite = 0xc013;
  name = codes "ECDHE_RSA_AES_128_CBC_SHA";
  strength = weak_class;
  forward_s = true;
}

abbrev second_entry : CatalogEntry
second_entry = record {
  suite = 0x1301;
  name = codes "TLS_AES_128_GCM_SHA256";
  strength = strong_class;
  forward_s = true;
}

rate_order_example :
    rate (with_ciphers modern (probe_ciphers takes_cbc (first_entry ∷ second_entry ∷ [])))
    ≡ rate (with_ciphers modern (probe_ciphers takes_cbc (second_entry ∷ first_entry ∷ [])))
rate_order_example =
    rate_order takes_cbc modern (first_entry ∷ second_entry ∷ []) (second_entry ∷ first_entry ∷ [])
      (Perm.swap second_entry first_entry [])

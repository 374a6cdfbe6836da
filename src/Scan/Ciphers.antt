-- ===== src/Scan/Ciphers.antt =====
-- pkg/tlsscan/ciphers.go: the catalogue and `probeCiphers`. Whether a handshake that offers one
-- suite alone succeeds is `accepted`, for crypto/tls and the server together. Go's order of a
-- map's entries is not fixed: it is the argument `order`.
use tlsscan.Base.{
  ℕ, Bool, true, false, ◌||◌, List, [], ◌∷◌, ◌++◌, if◌then◌else◌, ◌≡◌, ◌∙◌, refl, append_assoc,
  append-nil,
}
use tlsscan.Base.Text.{codes}
use tlsscan.Rating.Types.{CipherSummary}

pub data Strength : Type 0 where
  strong_class weak_class insecure_class : Strength

pub record CatalogEntry : Type 0 where
  pub suite : ℕ
  pub name : List ℕ
  pub strength : Strength
  pub forward_s : Bool

abbrev entry : ℕ → List ℕ → Strength → Bool → CatalogEntry
entry id n s f = record { suite = id; name = n; strength = s; forward_s = f }

abbrev pub cipher_catalog : List CatalogEntry
cipher_catalog =
    entry 0x1301 (codes "TLS_AES_128_GCM_SHA256") strong_class true
    ∷ entry 0x1302 (codes "TLS_AES_256_GCM_SHA384") strong_class true
    ∷ entry 0x1303 (codes "TLS_CHACHA20_POLY1305_SHA256") strong_class true
    ∷ entry 0xc02f (codes "ECDHE_RSA_AES_128_GCM") strong_class true
    ∷ entry 0xc030 (codes "ECDHE_RSA_AES_256_GCM") strong_class true
    ∷ entry 0xc02b (codes "ECDHE_ECDSA_AES_128_GCM") strong_class true
    ∷ entry 0xc013 (codes "ECDHE_RSA_AES_128_CBC_SHA") weak_class true
    ∷ entry 0x009c (codes "RSA_AES_128_GCM") weak_class false
    ∷ entry 0x002f (codes "RSA_AES_128_CBC_SHA") weak_class false
    ∷ entry 0x000a (codes "RSA_3DES_EDE_CBC_SHA") insecure_class false
    ∷ entry 0xc011 (codes "ECDHE_RSA_RC4_128_SHA") insecure_class true
    ∷ []

-- The `switch` on the class.
abbrev pub add_name : Strength → List ℕ → CipherSummary → CipherSummary
add_name strong_class n s = record s { strong = s.strong ++ n ∷ [] }
add_name weak_class n s = record s { weak = s.weak ++ n ∷ [] }
add_name insecure_class n s = record s { insecure = s.insecure ++ n ∷ [] }

-- The body of the loop for a suite that is accepted.
abbrev pub add_entry : CatalogEntry → CipherSummary × Bool → CipherSummary × Bool
add_entry e (s, fs) = (add_name e.strength e.name s, if e.forward_s then true else fs)

unfoldable pub enumerate :
    (ℕ → Bool) → List CatalogEntry → CipherSummary × Bool → CipherSummary × Bool
enumerate accepted [] acc = acc
enumerate accepted (e ∷ es) acc =
    enumerate accepted es (if accepted e.suite then add_entry e acc else acc)

unfoldable pub probe_ciphers : (ℕ → Bool) → List CatalogEntry → CipherSummary × Bool
probe_ciphers accepted order =
    enumerate accepted order
      (record { strong = []; weak = []; insecure = []; server_preferred = false }, false)

-- The accepted names of one class, in the order of the loop.
abbrev pub same_strength : Strength → Strength → Bool
same_strength strong_class strong_class = true
same_strength weak_class weak_class = true
same_strength insecure_class insecure_class = true
same_strength _ _ = false

abbrev pub name_of : Strength → (ℕ → Bool) → CatalogEntry → List (List ℕ)
name_of k accepted e =
    if accepted e.suite then (if same_strength e.strength k then e.name ∷ [] else []) else []

abbrev pub names_of : Strength → (ℕ → Bool) → List CatalogEntry → List (List ℕ)
names_of k accepted [] = []
names_of k accepted (e ∷ es) = name_of k accepted e ++ names_of k accepted es

-- Whether an accepted suite has forward secrecy.
abbrev pub forward_of : (ℕ → Bool) → CatalogEntry → Bool
forward_of accepted e = if accepted e.suite then e.forward_s else false

abbrev pub offers_forward : (ℕ → Bool) → List CatalogEntry → Bool
offers_forward accepted [] = false
offers_forward accepted (e ∷ es) = forward_of accepted e || offers_forward accepted es

abbrev extended : (ℕ → Bool) → List CatalogEntry → CipherSummary × Bool → CipherSummary × Bool
extended accepted es (s, fs) = (
  record s {
    strong = s.strong ++ names_of strong_class accepted es;
    weak = s.weak ++ names_of weak_class accepted es;
    insecure = s.insecure ++ names_of insecure_class accepted es;
  },
  fs || offers_forward accepted es,
)

-- One entry, whatever its class.
extended_entry :
    (accepted : ℕ → Bool) (e : CatalogEntry) (es : List CatalogEntry) (s : CipherSummary)
    (fs taken f : Bool) (k : Strength)
    → accepted e.suite ≡ taken
    → e.strength ≡ k
    → e.forward_s ≡ f
    → extended accepted es (if accepted e.suite then add_entry e (s, fs) else (s, fs))
      ≡ extended accepted (e ∷ es) (s, fs)
extended_entry accepted e es s fs false f k h hk hf = rw h
extended_entry accepted e es s false true false strong_class h hk hf =
    rw (h, hk, hf) (simp append_assoc)
extended_entry accepted e es s false true false weak_class h hk hf =
    rw (h, hk, hf) (simp append_assoc)
extended_entry accepted e es s false true false insecure_class h hk hf =
    rw (h, hk, hf) (simp append_assoc)
extended_entry accepted e es s false true true strong_class h hk hf =
    rw (h, hk, hf) (simp append_assoc)
extended_entry accepted e es s false true true weak_class h hk hf =
    rw (h, hk, hf) (simp append_assoc)
extended_entry accepted e es s false true true insecure_class h hk hf =
    rw (h, hk, hf) (simp append_assoc)
extended_entry accepted e es s true true false strong_class h hk hf =
    rw (h, hk, hf) (simp append_assoc)
extended_entry accepted e es s true true false weak_class h hk hf =
    rw (h, hk, hf) (simp append_assoc)
extended_entry accepted e es s true true false insecure_class h hk hf =
    rw (h, hk, hf) (simp append_assoc)
extended_entry accepted e es s true true true strong_class h hk hf =
    rw (h, hk, hf) (simp append_assoc)
extended_entry accepted e es s true true true weak_class h hk hf =
    rw (h, hk, hf) (simp append_assoc)
extended_entry accepted e es s true true true insecure_class h hk hf =
    rw (h, hk, hf) (simp append_assoc)

extended_lem :
    (accepted : ℕ → Bool) (es : List CatalogEntry) (acc : CipherSummary × Bool)
    → enumerate accepted es acc ≡ extended accepted es acc
unfolding enumerate
extended_lem accepted [] (s, true) = simp append-nil
extended_lem accepted [] (s, false) = simp append-nil
extended_lem accepted (e ∷ es) (s, fs) =
    extended_lem accepted es (if accepted e.suite then add_entry e (s, fs) else (s, fs))
    ∙ extended_entry accepted e es s fs (accepted e.suite) e.forward_s e.strength refl refl refl

-- What the loop collects, written out.
abbrev pub summary_of : (ℕ → Bool) → List CatalogEntry → CipherSummary
summary_of accepted es = record {
  strong = names_of strong_class accepted es;
  weak = names_of weak_class accepted es;
  insecure = names_of insecure_class accepted es;
  server_preferred = false;
}

-- For a server whose acceptance depends on the suite alone, the three lists are the accepted
-- names of their class in the order of the loop, and forward secrecy is reported exactly if an
-- accepted suite has it.
pub probe_ciphers_lem :
    (accepted : ℕ → Bool) (order : List CatalogEntry)
    → probe_ciphers accepted order ≡ (summary_of accepted order, offers_forward accepted order)
unfolding probe_ciphers
probe_ciphers_lem accepted order = extended_lem accepted order _

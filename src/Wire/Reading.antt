-- ===== src/Wire/Reading.antt =====
-- The ClientHello messages of the probes (Wire/Hello), read by the grammar.
use tlsscan.Base.{
  ℕ, zero, suc, ◌+◌, ◌≤◌, ◌<◌, true, false, List, [], ◌∷◌, ◌++◌, some, length, leb, ltb, ◌==◌,
  if◌then◌else◌, ◌≡◌, ◌∙◌, refl, sym, ap, arith, length-append, take-append, drop-append,
  append-nil,
}
use tlsscan.Wire.{Bytes, put16, put24, get16-put16, get24-put24}
use tlsscan.Wire.Headers.{record_handshake, framed}
use tlsscan.Wire.Hello.{suite_bytes, counted16}
use tlsscan.Wire.Grammar.{
  Extension, encode, Fit, ClientHello, is_empty, uint16, read_bytes, vector16, pairs,
  read_extensions, extension_block, read_body, read_handshake, read_client_hello,
}

pub read_bytes-append : (b rest : Bytes) → read_bytes (b ++ rest) (length b) ≡ some (b, rest)
unfolding read_bytes
read_bytes-append b rest =
    let e : leb (length b) (length (b ++ rest)) ≡ true = ground (arith, length-append b rest) in
    rw (e, take-append (length b) b rest refl, drop-append (length b) b rest refl)

uint16-put16 : (v : ℕ) (s : Bytes) → v < 65536 → uint16 (put16 v ++ s) ≡ some (v, s)
uint16-put16 v s h = rw (get16-put16 v h)

vector16-counted16 :
    (b rest : Bytes) → length b < 65536 → vector16 (counted16 b ++ rest) ≡ some (b, rest)
vector16-counted16 b rest h = rw (get16-put16 (length b) h) (read_bytes-append b rest)

-- Each suite fits two bytes.
abbrev pub FitPairs : List ℕ → Type 0
FitPairs [] = Unit
FitPairs (v ∷ vs) = (v < 65536) × FitPairs vs

pairs-suite_bytes : (vs : List ℕ) → FitPairs vs → pairs (suite_bytes vs) ≡ some vs
unfolding pairs suite_bytes
pairs-suite_bytes [] fit = refl
pairs-suite_bytes (v ∷ vs) fit = rw (pairs-suite_bytes vs fit.1, get16-put16 v fit.0)

read_extensions-encode :
    (fuel : ℕ) (xs : List Extension)
    → Fit xs
    → length (encode xs) ≤ fuel
    → read_extensions fuel (encode xs) ≡ some xs
unfolding read_extensions
read_extensions-encode fuel [] fit h = refl
read_extensions-encode zero (x ∷ xs) fit h = absurd (omega arith)
read_extensions-encode (suc fuel) (x ∷ xs) fit h =
    let ih =
      read_extensions-encode fuel xs fit.2 (omega (arith, length-append x.body (encode xs))) in
    rw (get16-put16 x.kind fit.0, get16-put16 (length x.body) fit.1)
      (rw (read_bytes-append x.body (encode xs), ih))

-- A block that is there has its length before it.
abbrev pub block : Bytes → Bytes
block e = if ltb 0 (length e) then counted16 e else []

pub extension_block-counted16 :
    (xs : List Extension)
    → Fit xs
    → length (encode xs) < 65536
    → extension_block (counted16 (encode xs)) ≡ some xs
unfolding extension_block
extension_block-counted16 xs fit h =
    let e = encode xs in
    let whole : read_bytes e (length e) ≡ some (e, []) =
      ap (λ s. read_bytes s (length e)) (sym (append-nil e)) ∙ read_bytes-append e [] in
    rw (get16-put16 (length e) h)
      (rw whole (read_extensions-encode (length e) xs fit (omega arith)))

pub extension_block-block :
    (xs : List Extension)
    → Fit xs
    → length (encode xs) < 65536
    → extension_block (block (encode xs)) ≡ some xs
unfolding extension_block
extension_block-block [] fit h = refl
extension_block-block (x ∷ xs) fit h =
    let there : ltb 0 (length (encode (x ∷ xs))) ≡ true = ground arith in
    rw there (extension_block-counted16 (x ∷ xs) fit h)

-- The body of a ClientHello without a session, with null compression.
abbrev pub layout : ℕ → Bytes → List ℕ → Bytes → Bytes
layout v random suites ext =
    put16 v
    ++ (random ++ (0x00 ∷ [] ++ (counted16 (suite_bytes suites) ++ (0x01 ∷ 0x00 ∷ [] ++ ext))))

abbrev pub message : Bytes → Bytes
message body = 0x01 ∷ (put24 (length body) ++ body)

-- What such a record says.
abbrev pub hello_of : ℕ → ℕ → Bytes → List ℕ → List Extension → ClientHello
hello_of rv v random suites xs = record {
  record_version = rv;
  version = v;
  random = random;
  session_id = [];
  suites = suites;
  compressions = 0x00 ∷ [];
  extensions = xs;
}

module _ (rv v : ℕ) (random : Bytes) (suites : List ℕ) (ext : Bytes) (xs : List Extension)
    (v_fits : v < 65536) (random_32 : length random ≡ 32) (suites_fit : FitPairs suites)
    (some_suite : 0 < length (suite_bytes suites)) (are : extension_block ext ≡ some xs) where
  abbrev offered : Bytes
  offered = suite_bytes suites

  read_body-layout :
      length offered < 65536
      → read_body rv (layout v random suites ext) ≡ some (hello_of rv v random suites xs)
  unfolding read_body
  read_body-layout h =
      let behind = 0x00 ∷ [] ++ (counted16 offered ++ (0x01 ∷ 0x00 ∷ [] ++ ext)) in
      let r : read_bytes (random ++ behind) 32 ≡ some (random, behind) =
        ap (read_bytes (random ++ behind)) (sym random_32) ∙ read_bytes-append random behind in
      let there : is_empty offered ≡ false = not_empty offered some_suite in
      let suites_on = counted16 offered ++ (0x01 ∷ 0x00 ∷ [] ++ ext) in
      let no_session : read_bytes suites_on 0 ≡ some ([], suites_on) =
        read_bytes-append [] suites_on in
      let null : read_bytes (0x00 ∷ ext) 1 ≡ some (0x00 ∷ [], ext) =
        read_bytes-append (0x00 ∷ []) ext in
      rw (get16-put16 v v_fits) (
        rw r (
          rw no_session (
            rw (get16-put16 (length offered) h) (
              rw (read_bytes-append offered (0x01 ∷ 0x00 ∷ [] ++ ext))
                (rw null (rw (there, pairs-suite_bytes suites suites_fit, are) refl))))))
    where
      not_empty : (b : Bytes) → 0 < length b → is_empty b ≡ false
      not_empty [] h = absurd (omega arith)
      not_empty (x ∷ b) h = refl

  -- A record with such a message, that is not too long, is read.
  pub read_client_hello-layout :
      rv < 65536
      → length (layout v random suites ext) + 4 ≤ 16384
      → length offered < 65536
      → read_client_hello (framed rv record_handshake (message (layout v random suites ext)))
        ≡ some (hello_of rv v random suites xs)
  unfolding read_client_hello read_handshake
  read_client_hello-layout rv_fits small few =
      let body = layout v random suites ext in
      let whole : read_bytes (message body) (length (message body)) ≡ some (message body, []) =
        ap (λ s. read_bytes s (length (message body))) (sym (append-nil (message body)))
        ∙ read_bytes-append (message body) [] in
      let short : leb (length (message body)) 16384 ≡ true = ground arith in
      let exact : (length body == length body) ≡ true = ground arith in
      rw (get16-put16 rv rv_fits) (
        rw (get16-put16 (length (message body)) (omega arith)) (
          rw whole (
            rw short
              (rw (get24-put24 (length body) (omega arith)) (rw exact (read_body-layout few))))))

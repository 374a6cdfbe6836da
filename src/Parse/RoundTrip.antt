-- ===== src/Parse/RoundTrip.antt =====
-- An encoder of the ServerHello, and the parsers on what it encodes.
use tlsscan.Base.{
  ℕ, zero, suc, ◌+◌, ◌-◌, ◌*◌, ◌≤◌, ◌<◌, Bool, true, false, List, [], ◌∷◌, ◌++◌, some, length, take,
  drop, ltb, leb, ◌==◌, if◌then◌else◌, ◌≡◌, ◌∙◌, refl, sym, ap, arith, length-append, length-drop,
  drop-append, take-append,
}
use tlsscan.Wire.{Bytes, put16, get16-put16}
use tlsscan.Wire.Headers.{wrap_handshake}
use tlsscan.Wire.Hello.{counted16}
use tlsscan.Wire.Grammar.{Extension, encode, Fit}
use tlsscan.Parse.Slice.{index_at, read16_at, drop_at, slice-some}
use tlsscan.Parse.{
  extension_loop, extensions_at, server_hello_has_extension, parse_server_hello_suite,
}

abbrev pub carries : ℕ → List Extension → Bool
carries want [] = false
carries want (x ∷ xs) = if x.kind == want then true else carries want xs

loop_carries :
    (xs : List Extension) (fuel : ℕ) (msg : Bytes) (want p : ℕ)
    → Fit xs
    → drop p msg ≡ encode xs
    → length (encode xs) ≤ 4 * fuel
    → extension_loop fuel msg want p (length msg) ≡ some (carries want xs)
unfolding extension_loop
loop_carries [] zero msg want p fit e h = refl
loop_carries [] (suc fuel) msg want p fit e h =
    let n : length msg - p ≡ 0 = sym (length-drop p msg) ∙ ap length e in
    let stop : leb (p + 4) (length msg) ≡ false = ground arith in rw (stop, extension_loop)
loop_carries (x ∷ xs) zero msg want p fit e h = absurd (omega arith)
loop_carries (x ∷ xs) (suc fuel) msg want p fit e h =
    let n : length msg - p ≡ length (encode (x ∷ xs)) = sym (length-drop p msg) ∙ ap length e in
    let body = length-append x.body (encode xs) in
    let more : leb (p + 4) (length msg) ≡ true = ground arith in
    let kind = read16_at msg p e ∙ ap some (get16-put16 x.kind fit.0) in
    let at_len = drop_at msg p 2 e in
    let len = read16_at msg (p + 2) at_len ∙ ap some (get16-put16 (length x.body) fit.1) in
    let at_body = drop_at msg p 4 e in
    let next =
      drop_at msg (p + 4) (length x.body) at_body
      ∙ drop-append (length x.body) x.body (encode xs) refl in
    let later = loop_carries xs fuel msg want (p + 4 + length x.body) fit.2 next (omega arith) in
    rw (more, extension_loop) (rw kind (rw len (ground arith)))

pub record ServerHello : Type 0 where
  pub version : ℕ
  pub random : Bytes
  pub session_id : Bytes
  pub suite : ℕ
  pub compression : ℕ
  pub extensions : List Extension

pub record IsFitting (h : ServerHello) : Type 0 where
  pub random_32 : length h.random ≡ 32
  pub session_fits : length h.session_id < 256
  pub suite_fits : h.suite < 65536
  pub each_fit : Fit h.extensions
  pub all_fit : length (encode h.extensions) < 65536

-- What stands behind the session id, and from the session id's length on.
abbrev choice : ServerHello → Bytes
choice h = put16 h.suite ++ (h.compression ∷ counted16 (encode h.extensions))

abbrev session_on : ServerHello → Bytes
session_on h = length h.session_id ∷ (h.session_id ++ choice h)

-- The message with its handshake header (RFC 5246, section 7.4.1.3).
unfoldable pub server_hello : ServerHello → Bytes
server_hello h = wrap_handshake 0x02 (put16 h.version ++ (h.random ++ session_on h))

module _ (h : ServerHello) (fits : IsFitting h) where
  abbrev sid : ℕ
  sid = length h.session_id

  after_random : drop 38 (server_hello h) ≡ session_on h
  unfolding server_hello wrap_handshake
  after_random = drop-append 32 h.random (session_on h) (sym fits.random_32)

  length-hello : length (server_hello h) ≡ 38 + length (session_on h)
  unfolding server_hello wrap_handshake
  length-hello = omega (arith, length-append h.random (session_on h), fits.random_32)

  random_slice : take 32 (drop 6 (server_hello h)) ≡ h.random
  unfolding server_hello wrap_handshake
  random_slice = take-append 32 h.random (session_on h) (sym fits.random_32)

  after_session : drop (39 + sid) (server_hello h) ≡ choice h
  after_session =
      let e : 39 + sid ≡ 38 + suc sid = omega arith in
      rw e (
        drop_at (server_hello h) 38 (suc sid) after_random
        ∙ drop-append sid h.session_id (choice h) refl)

  length_session : length (session_on h) ≡ 1 + sid + 5 + length (encode h.extensions)
  length_session = omega (arith, length-append h.session_id (choice h))

  -- On an encoded ServerHello whose fields fit their lengths, `serverHelloHasExtension` returns,
  -- without a panic, whether the ServerHello carries an extension of the type that is asked for.
  pub has_extension-server_hello :
      (want : ℕ)
      → server_hello_has_extension (server_hello h) want ≡ some (carries want h.extensions)
  unfolding server_hello_has_extension extensions_at
  has_extension-server_hello want =
      let msg = server_hello h in
      let n = length-hello in
      let m = length_session in
      let long : ltb (length msg) 39 ≡ false = ground arith in
      let at_sid = index_at msg 38 after_random in
      let p : ℕ = 39 + sid + 3 in
      let at_exts = drop_at msg (39 + sid) 3 after_session in
      let a : ltb (length msg) (39 + sid + 3) ≡ false = ground arith in
      let b : ltb (length msg) (39 + sid + 3 + 2) ≡ false = ground arith in
      let total =
        read16_at msg (39 + sid + 3) at_exts
        ∙ ap some (get16-put16 (length (encode h.extensions)) fits.all_fit) in
      let end : 39 + sid + 3 + 2 + length (encode h.extensions) ≡ length msg = omega arith in
      let c : ltb (length msg) (length msg) ≡ false = ground arith in
      rw long (
        rw at_sid (
          rw (a, b)
            (rw total (
              rw (end, c)
                (loop_carries h.extensions (length msg) msg want (39 + sid + 3 + 2) fits.each_fit
                  (drop_at msg (39 + sid + 3) 2 at_exts) (omega arith))))))

  -- On an encoded ServerHello whose fields fit their lengths, `parseServerHelloSuite` returns
  -- the suite and the random.
  pub suite-server_hello :
      parse_server_hello_suite (server_hello h) ≡ some (some (h.suite, h.random))
  unfolding parse_server_hello_suite
  suite-server_hello =
      let msg = server_hello h in
      let n = length-hello in
      let m = length_session in
      let long : ltb (length msg) 39 ≡ false = ground arith in
      let at_sid = index_at msg 38 after_random in
      let a : ltb (length msg) (39 + sid + 2) ≡ false = ground arith in
      let suite =
        read16_at msg (39 + sid) after_session ∙ ap some (get16-put16 h.suite fits.suite_fits) in
      let random = slice-some msg 6 38 (omega arith) (omega arith) ∙ ap some random_slice in
      rw long (rw random (rw at_sid (rw a (rw suite))))

-- ===== src/Renegotiation/Reassembly.antt =====
-- internal/handshake/probes.go: `readServerHelloMessage` on a message that is cut into records.
use tlsscan.Base.{
  ℕ, zero, suc, ◌+◌, ◌≤◌, ◌<◌, true, false, ◌&&◌, List, [], ◌∷◌, ◌++◌, some, length, ltb, leb, ◌≡◌,
  ◌∙◌, refl, sym, ap, arith, inl, inr, Bool-cases, length-append, append_assoc, append-nil,
  take_all,
}
use tlsscan.Wire.{Bytes}
use tlsscan.Wire.Headers.{record_handshake, framed}
use tlsscan.Net.Full.{flat}
use tlsscan.Net.Framed.{header-framed, bytes-append}
use tlsscan.Net.Stream.{got, then_parse}
use tlsscan.Probe.{first_byte, handshake_server_hello}
use tlsscan.Renegotiation.{msg_len, incomplete, assembled}
use tlsscan.Renegotiation.Message.{loop_parser, record_parser, payload_parser}

-- A message cut into the payloads of handshake records.
abbrev pub records : ℕ → List Bytes → Bytes
records version [] = []
records version (f ∷ fs) = framed version record_handshake f ++ records version fs

-- No payload is empty, and each fits a record.
abbrev pub AreFragments : List Bytes → Type 0
AreFragments [] = Unit
AreFragments (f ∷ fs) = (0 < length f) × (length f < 65536) × AreFragments fs

-- A ServerHello of at most 65536 bytes, whose header gives its length.
pub record IsMessage (msg : Bytes) : Type 0 where
  pub is_server_hello : first_byte msg ≡ handshake_server_hello
  pub has_header : 4 ≤ length msg
  pub is_whole : msg_len msg ≡ length msg
  pub is_short : length msg ≤ 65536

pub msg_len-append : (buf xs : Bytes) → 4 ≤ length buf → msg_len (buf ++ xs) ≡ msg_len buf
msg_len-append [] xs h = absurd (omega arith)
msg_len-append (a ∷ []) xs h = absurd (omega arith)
msg_len-append (a ∷ b ∷ []) xs h = absurd (omega arith)
msg_len-append (a ∷ b ∷ c ∷ []) xs h = absurd (omega arith)
msg_len-append (a ∷ b ∷ c ∷ d ∷ bs) xs h = refl

assembled-message : (msg : Bytes) → IsMessage msg → assembled msg ≡ some msg
unfolding assembled
assembled-message msg m =
    let whole = m.is_whole in
    let long : ltb (length msg) 4 ≡ false = let h = m.has_header in ground arith in
    let all : ltb (length msg) (length msg) ≡ false = ground arith in
    rw (long, m.is_server_hello, whole, all, take_all (length msg) msg (omega arith))

complete_message : (msg : Bytes) → IsMessage msg → incomplete msg ≡ false
complete_message msg m =
    let long : ltb (length msg) 4 ≡ false = let h = m.has_header in ground arith in
    let all : ltb (length msg) (length msg) ≡ false = ground arith in rw (long, m.is_whole, all)

-- With the header of the message in the buffer, its length is known.
known_length :
    (buf rest : Bytes)
    → IsMessage (buf ++ rest)
    → 4 ≤ length buf
    → msg_len buf ≡ length buf + length rest
known_length buf rest m h = sym (msg_len-append buf rest h) ∙ m.is_whole ∙ length-append buf rest

prefix_incomplete :
    (buf rest : Bytes) → IsMessage (buf ++ rest) → 0 < length rest → incomplete buf ≡ true
prefix_incomplete buf rest m pos = elim (Bool-cases (ltb (length buf) 4)) [
  | inl e ↦ rw e
  | inr e ↦
      let n = known_length buf rest m (ground arith) in
      let more : ltb (length buf) (length buf + length rest) ≡ true = ground arith in
      rw (e, n, more)
]

prefix_goes_on :
    (buf rest : Bytes)
    → IsMessage (buf ++ rest)
    → (leb 4 (length buf) && ltb 65536 (msg_len buf)) ≡ false
prefix_goes_on buf rest m = elim (Bool-cases (leb 4 (length buf))) [
  | inl e ↦
      let n = known_length buf rest m (ground arith) in
      let short = m.is_short in
      let len = length-append buf rest in
      let fits : ltb 65536 (length buf + length rest) ≡ false = ground arith in rw (e, n, fits)
  | inr e ↦ rw e
]

-- A payload of the message, after which the loop goes on with the longer buffer.
record_parser-framed :
    (fuel version : ℕ) (buf f more rest : Bytes)
    → 0 < length f
    → length f < 65536
    → IsMessage ((buf ++ f) ++ rest)
    → record_parser (loop_parser fuel) buf (framed version record_handshake f ++ more)
      ≡ loop_parser fuel (buf ++ f) more
record_parser-framed fuel version buf f more rest pos fits m =
    let short = m.is_short in
    let len = length-append (buf ++ f) rest in
    let a : ltb (length f) 1 ≡ false = ground arith in
    let b : ltb 65536 (length (buf ++ f)) ≡ false = ground arith in
    ap (λ q. then_parse q (payload_parser (loop_parser fuel) buf))
      (header-framed version record_handshake f more fits)
    ∙ rw (a, bytes-append f more, b, prefix_goes_on (buf ++ f) rest m)

-- The loop returns the message and leaves what stands behind its last record.
pub loop_parser-records :
    (fuel version : ℕ) (buf : Bytes) (fs : List Bytes) (more : Bytes)
    → AreFragments fs
    → length fs < fuel
    → IsMessage (buf ++ flat fs)
    → loop_parser fuel buf (records version fs ++ more) ≡ got (some (buf ++ flat fs)) more
unfolding loop_parser
loop_parser-records zero version buf fs more are h m = absurd (omega arith)
loop_parser-records (suc fuel) version buf [] more are h m =
    let m' : IsMessage buf = rw append-nil at m in
    rw (complete_message buf m', loop_parser) (rw (assembled-message buf m', append-nil))
loop_parser-records (suc fuel) version buf (f ∷ fs) more are h m =
    let q : (buf ++ f) ++ flat fs ≡ buf ++ (f ++ flat fs) = rw append_assoc in
    let m' : IsMessage ((buf ++ f) ++ flat fs) = rw q m in
    let s : framed version record_handshake f ++ records version fs ++ more
        ≡ framed version record_handshake f ++ (records version fs ++ more) =
      rw append_assoc in
    let inc =
      prefix_incomplete buf (f ++ flat fs) m (omega (arith, length-append f (flat fs), are.0)) in
    rw (inc, loop_parser)
      (ap (record_parser (loop_parser fuel) buf) s
        ∙ record_parser-framed fuel version buf f (records version fs ++ more) (flat fs) are.0 are.1
            m'
        ∙ loop_parser-records fuel version (buf ++ f) fs more are.2 (omega arith) m'
        ∙ ap (λ b. got (some b) more) q)

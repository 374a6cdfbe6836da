-- ===== src/Session/Messages.antt =====
-- internal/handshake/cbc.go: `hsReader.next` on a flight of messages that is cut into records.
use tlsscan.Base.{
  ℕ, zero, suc, ◌+◌, ◌≤◌, ◌<◌, true, false, not, ◌||◌, List, [], ◌∷◌, ◌++◌, length, take, drop, ltb,
  leb, ◌==◌, if◌then◌else◌, ◌≡◌, ◌∙◌, refl, sym, ap, arith, inl, inr, Bool-cases, length-append,
  take-append, drop-append, take-append_le, drop-append_le,
}
use tlsscan.Wire.{Bytes}
use tlsscan.Wire.Headers.{record_handshake}
use tlsscan.Net.{Io, read_full}
use tlsscan.Net.Full.{flat}
use tlsscan.Net.Record.{read_record_header}
use tlsscan.Net.Stream.{
  Parsed, got, refused, Parser, then_parse, Implements, bytes, header, read_full-Implements,
  pure-Implements, fail-Implements, >>=-Implements, read_record_header-Implements,
}
use tlsscan.Probe.{first_byte}
use tlsscan.Probe.Stream.{if-Implements}
use tlsscan.Renegotiation.{msg_len}
use tlsscan.Renegotiation.Reassembly.{records, AreFragments, msg_len-append}
use tlsscan.Session.{given_up, abandon}
use tlsscan.Session.Reader.{Next, holds_message, taken, grown, next_payload, next_loop}

abbrev pub grown_parser : (Bytes → Parser Next) → Bytes → Parser Next
grown_parser go buf = if ltb 262144 (length buf) then (λ s. refused given_up) else go buf

abbrev pub payload_parser : (Bytes → Parser Next) → Bytes → ℕ × ℕ × ℕ → Parser Next
payload_parser go buf h =
    if not (h.0 == record_handshake) || (ltb h.2 1 || ltb 65536 h.2)
    then (λ s. refused given_up)
    else (λ s. then_parse (bytes h.2 s) (λ payload. grown_parser go (buf ++ payload)))

abbrev pub record_parser : (Bytes → Parser Next) → Bytes → Parser Next
record_parser go buf s = then_parse (header s) (payload_parser go buf)

unfoldable pub next_parser : ℕ → Bytes → Parser Next
next_parser zero buf = λ s. refused given_up
next_parser (suc fuel) buf = elim (holds_message buf) [
  | true ↦ got (taken buf)
  | false ↦ record_parser (next_parser fuel) buf
]

grown-Implements :
    (go : Bytes → Io Next) (spec : Bytes → Parser Next) (buf : Bytes)
    → ((b : Bytes) → Implements (go b) (spec b))
    → Implements (grown go buf) (grown_parser spec buf)
unfolding grown
grown-Implements go spec buf h =
    if-Implements (ltb 262144 (length buf)) abandon (go buf) (λ s. refused given_up) (spec buf)
      (fail-Implements given_up) (h buf)

next_payload-Implements :
    (go : Bytes → Io Next) (spec : Bytes → Parser Next) (buf : Bytes)
    → ((b : Bytes) → Implements (go b) (spec b))
    → Implements (next_payload go buf) (record_parser spec buf)
unfolding next_payload
next_payload-Implements go spec buf h =
    >>=-Implements read_record_header header _ (payload_parser spec buf)
      read_record_header-Implements
      (λ r.
        if-Implements (not (r.0 == record_handshake) || (ltb r.2 1 || ltb 65536 r.2)) abandon _
          (λ s. refused given_up) _ (fail-Implements given_up)
          (>>=-Implements (read_full r.2) (bytes r.2) (λ p. grown go (buf ++ p))
            (λ p. grown_parser spec (buf ++ p)) (read_full-Implements r.2)
            (λ p. grown-Implements go spec (buf ++ p) h)))

pub next_loop-Implements :
    (fuel : ℕ) (buf : Bytes) → Implements (next_loop fuel buf) (next_parser fuel buf)
unfolding next_loop next_parser
next_loop-Implements zero buf = fail-Implements given_up
next_loop-Implements (suc fuel) buf = elim (Bool-cases (holds_message buf)) [
  | inl e ↦ rw (e, next_loop, next_parser) (pure-Implements (taken buf))
  | inr e ↦
      rw (e, next_loop, next_parser)
        (next_payload-Implements (next_loop fuel) (next_parser fuel) buf
          (next_loop-Implements fuel))
]

-- A handshake message, whose header gives its length.
pub record IsHandshake (m : Bytes) : Type 0 where
  pub has_header : 4 ≤ length m
  pub is_whole : msg_len m ≡ length m

-- What is left of a flight when a message has been taken: the buffer, and the records that have
-- not been read, which hold the bytes `rest`.
pub record Left (m rest : Bytes) (version : ℕ) (more : Bytes) (before : List Bytes)
    (outcome : Parsed Next) : Type 0 where
  pub buf : Bytes
  pub frags : List Bytes
  pub returns :
      outcome
      ≡ got (record { kind = first_byte m; msg = m; buf = buf }) (records version frags ++ more)
  pub holds_rest : buf ++ flat frags ≡ rest
  pub are_fragments : AreFragments frags
  pub fewer : length frags ≤ length before

first_byte-append : (xs ys : Bytes) → 0 < length xs → first_byte (xs ++ ys) ≡ first_byte xs
first_byte-append [] ys h = absurd (omega arith)
first_byte-append (x ∷ xs) ys h = refl

module _ (m rest : Bytes) (is_m : IsHandshake m) (buf more : Bytes)
    (split : buf ++ more ≡ m ++ rest) where
  pub total_length : length buf + length more ≡ length m + length rest
  total_length = omega (arith, ap length split, length-append buf more, length-append m rest)

  -- With four bytes in the buffer, its header is that of the message.
  known_length : 4 ≤ length buf → msg_len buf ≡ length m
  known_length h =
      sym (msg_len-append buf more h)
      ∙ ap msg_len split
      ∙ msg_len-append m rest is_m.has_header
      ∙ is_m.is_whole

  pub buffer-holds : length m ≤ length buf → holds_message buf ≡ true
  buffer-holds h =
      let four = is_m.has_header in
      let e = known_length (omega arith) in
      let a : leb 4 (length buf) ≡ true = ground arith in
      let b : leb (length m) (length buf) ≡ true = ground arith in rw (a, e, b)

  pub buffer-lacks : length buf < length m → holds_message buf ≡ false
  buffer-lacks h = elim (Bool-cases (leb 4 (length buf))) [
    | inl a ↦
        let e = known_length (ground arith) in
        let b : leb (length m) (length buf) ≡ false = ground arith in rw (a, e, b)
    | inr a ↦ rw a
  ]

  pub taken_lem :
      length m ≤ length buf
      → taken buf ≡ record { kind = first_byte m; msg = m; buf = drop (length m) buf }
  taken_lem h =
      let four = is_m.has_header in
      let e = known_length (omega arith) in
      let t : take (length m) buf ≡ m =
        sym (take-append_le (length m) buf more h)
        ∙ ap (take (length m)) split
        ∙ take-append (length m) m rest refl in
      let k : first_byte buf ≡ first_byte m =
        sym (first_byte-append buf more (omega arith))
        ∙ ap first_byte split
        ∙ first_byte-append m rest (omega arith) in
      rw (e, t, k)

  pub left_over : length m ≤ length buf → drop (length m) buf ++ more ≡ rest
  left_over h =
      sym (drop-append_le (length m) buf more h)
      ∙ ap (drop (length m)) split
      ∙ drop-append (length m) m rest refl

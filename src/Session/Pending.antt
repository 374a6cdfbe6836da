-- ===== src/Session/Pending.antt =====
-- internal/handshake/cbc.go: `hsReader.next` on a connection where whole handshake messages wait,
-- cut into records in any way and coalesced in any way.
use tlsscan.Base.{
  ℕ, zero, suc, ◌≤◌, ◌<◌, false, List, [], ◌∷◌, ◌++◌, length, drop, ltb, leb, ◌≡◌, ◌∙◌, ap, arith,
  inl, inr, Bool-cases, length-append, append_assoc,
}
use tlsscan.Wire.{Bytes}
use tlsscan.Wire.Headers.{record_handshake, framed}
use tlsscan.Net.{Conn, ok}
use tlsscan.Net.Full.{flat}
use tlsscan.Net.Framed.{header-framed, bytes-append}
use tlsscan.Net.Stream.{Parsed, got, then_parse, Agrees}
use tlsscan.Probe.{first_byte}
use tlsscan.Renegotiation.Reassembly.{records, AreFragments}
use tlsscan.Session.Reader.{Next, next}
use tlsscan.Session.Messages.{
  next_parser, record_parser, payload_parser, next_loop-Implements, IsHandshake, Left, total_length,
  buffer-holds, buffer-lacks, taken_lem, left_over,
}

-- A record that does not complete the message: the loop goes on with the longer buffer.
record_parser-framed :
    (fuel version : ℕ) (buf f more : Bytes)
    → 0 < length f
    → length f < 65536
    → length (buf ++ f) ≤ 262144
    → record_parser (next_parser fuel) buf (framed version record_handshake f ++ more)
      ≡ next_parser fuel (buf ++ f) more
record_parser-framed fuel version buf f more pos fits small =
    let a : ltb (length f) 1 ≡ false = ground arith in
    let b : ltb 65536 (length f) ≡ false = ground arith in
    let c : ltb 262144 (length (buf ++ f)) ≡ false = ground arith in
    ap (λ q. then_parse q (payload_parser (next_parser fuel) buf))
      (header-framed version record_handshake f more fits)
    ∙ rw (a, b, bytes-append f more, c)

-- One more record before: what was read of the rest is left of the whole.
Left-step :
    {m rest more f : Bytes} {version : ℕ} {fs : List Bytes} {before after : Parsed Next}
    → before ≡ after
    → Left m rest version more fs after
    → Left m rest version more (f ∷ fs) before
Left-step e l = record {
  buf = l.buf;
  frags = l.frags;
  returns = e ∙ l.returns;
  holds_rest = l.holds_rest;
  are_fragments = l.are_fragments;
  fewer = let h = l.fewer in omega arith;
}

-- The message is read, with so much fuel, whatever of it is in the buffer.
abbrev IsRead : Bytes → Bytes → ℕ → Bytes → ℕ → Type 0
IsRead m rest version more fuel =
    (buf : Bytes) (fs : List Bytes)
    → AreFragments fs
    → length fs < fuel
    → buf ++ flat fs ≡ m ++ rest
    → Left m rest version more fs (next_parser fuel buf (records version fs ++ more))

-- The message is not in the buffer yet, so a record follows.
next_parser-lacks :
    (m rest : Bytes) (version : ℕ) (more : Bytes) (is_m : IsHandshake m) (fuel : ℕ) (buf : Bytes)
    (fs : List Bytes)
    → IsRead m rest version more fuel
    → AreFragments fs
    → length fs < suc fuel
    → length (m ++ rest) ≤ 262144
    → buf ++ flat fs ≡ m ++ rest
    → length buf < length m
    → Left m rest version more fs
        (record_parser (next_parser fuel) buf (records version fs ++ more))
next_parser-lacks m rest version more is_m fuel buf [] go are h small split lt =
    absurd (omega (arith, total_length m rest is_m buf [] split))
next_parser-lacks m rest version more is_m fuel buf (f ∷ fs) go are h small split lt =
    let q : (buf ++ f) ++ flat fs ≡ buf ++ (f ++ flat fs) = append_assoc buf f (flat fs) in
    let s : framed version record_handshake f ++ records version fs ++ more
        ≡ framed version record_handshake f ++ (records version fs ++ more) =
      append_assoc (framed version record_handshake f) (records version fs) more in
    let fits : length (buf ++ f) ≤ 262144 =
      omega (arith, ap length (q ∙ split), length-append (buf ++ f) (flat fs)) in
    Left-step
      (ap (record_parser (next_parser fuel) buf) s
        ∙ record_parser-framed fuel version buf f (records version fs ++ more) are.0 are.1 fits)
      (go (buf ++ f) fs are.2 (omega arith) (q ∙ split))

next_parser-records :
    (m rest : Bytes) (version : ℕ) (more : Bytes) (is_m : IsHandshake m) (fuel : ℕ) (buf : Bytes)
    (fs : List Bytes)
    → AreFragments fs
    → length fs < fuel
    → length (m ++ rest) ≤ 262144
    → buf ++ flat fs ≡ m ++ rest
    → Left m rest version more fs (next_parser fuel buf (records version fs ++ more))
unfolding next_parser
next_parser-records m rest version more is_m zero buf fs are h small split = absurd (omega arith)
next_parser-records m rest version more is_m (suc fuel) buf fs are h small split =
    elim (Bool-cases (leb (length m) (length buf))) [
      | inl e ↦
          let le : length m ≤ length buf = ground arith in
          let holds = buffer-holds m rest is_m buf (flat fs) split le in
          rw (holds, next_parser)
            (record {
              buf = drop (length m) buf;
              frags = fs;
              returns =
                  ap (λ n. got n (records version fs ++ more))
                    (taken_lem m rest is_m buf (flat fs) split le);
              holds_rest = left_over m rest is_m buf (flat fs) split le;
              are_fragments = are;
              fewer = omega arith;
            })
      | inr e ↦
          let lt : length buf < length m = ground arith in
          let lacks = buffer-lacks m rest is_m buf (flat fs) split lt in
          rw (lacks, next_parser)
            (next_parser-lacks m rest version more is_m fuel buf fs
              (λ b gs a n p. next_parser-records m rest version more is_m fuel b gs a n small p) are
              h small split lt)
    ]

-- A record takes a byte of the message at least.
length-fragments : (fs : List Bytes) → AreFragments fs → length fs ≤ length (flat fs)
length-fragments [] are = omega arith
length-fragments (f ∷ fs) are =
    omega (arith, length-append f (flat fs), length-fragments fs are.2, are.0)

abbrev pub AreHandshakes : List Bytes → Type 0
AreHandshakes [] = Unit
AreHandshakes (m ∷ ms) = IsHandshake m × AreHandshakes ms

-- The messages `ms` wait: their first bytes in the buffer, the others in records of the stream,
-- and the bytes `more` behind them.
pub record Pending (more : Bytes) (ms : List Bytes) (buf : Bytes) (c : Conn) : Type 0 where
  pub version : ℕ
  pub frags : List Bytes
  pub are_fragments : AreFragments frags
  pub are_handshakes : AreHandshakes ms
  pub stream : flat c.inbound ≡ records version frags ++ more
  pub split : buf ++ flat frags ≡ flat ms
  pub small : length (flat ms) ≤ 262144

-- `next` has returned the first of the messages that wait, and nothing was sent.
pub record Took (more m : Bytes) (ms : List Bytes) (buf : Bytes) (c : Conn) : Type 0 where
  pub left : Bytes
  pub packets : List Bytes
  pub took :
      next buf c
      ≡ (ok (record { kind = first_byte m; msg = m; buf = left }), record c { inbound = packets })
  pub pending : Pending more ms left (record c { inbound = packets })

next_agrees :
    (more m : Bytes) (ms : List Bytes) (buf : Bytes) (c : Conn) (p : Pending more (m ∷ ms) buf c)
    → Left m (flat ms) p.version more p.frags (next_parser 262146 buf (flat c.inbound))
next_agrees more m ms buf c p =
    let a = length-append buf (flat p.frags) in
    let e = ap length p.split in
    let s = p.small in
    let l = length-fragments p.frags p.are_fragments in
    rw p.stream (
      next_parser-records m (flat ms) p.version more p.are_handshakes.0 262146 buf p.frags
        p.are_fragments (omega arith) s p.split)

took_lem :
    (more m : Bytes) (ms : List Bytes) (buf : Bytes) (c : Conn) (p : Pending more (m ∷ ms) buf c)
    (r : Parsed Next)
    → Agrees c (next buf c) r
    → Left m (flat ms) p.version more p.frags r
    → Took more m ms buf c
took_lem more m ms buf c p r agrees l =
    let (ps, e, q) = rw l.returns at agrees in
    record {
      left = l.buf;
      packets = ps;
      took = e;
      pending = record {
        version = p.version;
        frags = l.frags;
        are_fragments = l.are_fragments;
        are_handshakes = p.are_handshakes.1;
        stream = q;
        split = l.holds_rest;
        small = let s = p.small in omega (arith, length-append m (flat ms));
      };
    }

-- `next` returns the first of the messages that wait, whole, and leaves the others waiting.
pub next-Pending :
    (more m : Bytes) (ms : List Bytes) (buf : Bytes) (c : Conn)
    → Pending more (m ∷ ms) buf c
    → Took more m ms buf c
unfolding next
next-Pending more m ms buf c p =
    took_lem more m ms buf c p _ (next_loop-Implements 262146 buf c) (next_agrees more m ms buf c p)

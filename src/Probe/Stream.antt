-- ===== src/Probe/Stream.antt =====
-- The replies that the one-reply probes accept, as functions of the bytes that arrive.
use tlsscan.Base.{
  ℕ, Bool, true, false, not, ◌&&◌, ◌||◌, [], ◌∷◌, some, ltb, leb, ◌==◌, if◌then◌else◌, ◌≡◌, refl,
  inl, inr, arith, Bool-cases,
}
use tlsscan.Wire.{Bytes, get16}
use tlsscan.Wire.Headers.{record_handshake}
use tlsscan.Net.{Peer, Conn, Result, Io, ◌>>=◌, pure, dial, write, read_full}
use tlsscan.Net.Full.{flat}
use tlsscan.Net.Record.{read_record_header}
use tlsscan.Net.Stream.{
  Parsed, got, starved, refused, Parser, then_parse, Agrees, Implements, bytes, header,
  read_full-Implements, pure-Implements, >>=-Implements, read_record_header-Implements,
}
use tlsscan.Probe.{read_first, handshake_server_hello, first_byte, or_else, ask, select_reply}

-- What the peer sends in answer to one request, if it is accepted.
abbrev pub answer : Peer → Bytes → Bytes
answer p request = flat (p.reply (request ∷ []))

abbrev pub accepted : Peer → Bytes → Bool
accepted p request = p.accepts (request ∷ [])

-- The value that a reader finds, or `d`.
abbrev pub found : {A : Type 0} → A → Parsed A → A
found d (got a rest) = a
found d starved = d
found d (refused e) = d

or_else-found :
    {A : Type 0} (d : A) (c : Conn) (r : Result A × Conn) (q : Parsed A)
    → Agrees c r q
    → or_else d r ≡ found d q
or_else-found d c r (got a rest) (ps, e, f) = rw e
or_else-found d c r starved (ps, e) = rw e
or_else-found d c r (refused x) (ps, e) = rw e

-- A probe's verdict depends on the answer's bytes alone.
pub ask-Implements :
    {A : Type 0} (d : A) (request : Bytes) (run : Io A) (p : Parser A) (peer : Peer)
    → Implements run p
    → ask d request run (some peer)
      ≡ (if accepted peer request then found d (p (answer peer request)) else d)
unfolding ask dial write
ask-Implements d request run p peer h = elim (Bool-cases (accepted peer request)) [
  | inl e ↦ rw e (
      or_else-found d
        (record { peer = peer; sent = request ∷ []; inbound = peer.reply (request ∷ []) }) _ _
        (h (record { peer = peer; sent = request ∷ []; inbound = peer.reply (request ∷ []) })))
  | inr e ↦ rw e
]

pub if-Implements :
    {A : Type 0} (b : Bool) (m n : Io A) (p q : Parser A)
    → Implements m p
    → Implements n q
    → Implements (if b then m else n) (if b then p else q)
if-Implements true m n p q h k = h
if-Implements false m n p q h k = k

abbrev pub first_is : ℕ → Parser Bool
first_is k s = then_parse (bytes 1 s) (λ b. got (first_byte b == k))

pub read_first-Implements : (k : ℕ) → Implements (read_first k) (first_is k)
read_first-Implements k =
    >>=-Implements (read_full 1) (bytes 1) (λ b. pure (first_byte b == k))
      (λ b. got (first_byte b == k)) (read_full-Implements 1)
      (λ b. pure-Implements (first_byte b == k))

-- A handshake record with a ServerHello at its start.
abbrev pub selects : Bytes → Bool
selects (t ∷ v ∷ w ∷ l ∷ m ∷ b ∷ rest) =
    t == record_handshake && (leb 1 (get16 l m) && b == handshake_server_hello)
selects _ = false

abbrev pub after_header : (ℕ × ℕ × ℕ → Parser Bool) → Parser Bool
after_header k s = then_parse (header s) k

pub after_header-Implements :
    (k : ℕ × ℕ × ℕ → Io Bool) (l : ℕ × ℕ × ℕ → Parser Bool)
    → ((h : ℕ × ℕ × ℕ) → Implements (k h) (l h))
    → Implements (read_record_header >>= k) (after_header l)
after_header-Implements k l =
    >>=-Implements read_record_header header k l read_record_header-Implements

abbrev pub select_parser : ℕ × ℕ × ℕ → Parser Bool
select_parser h =
    if not (h.0 == record_handshake) || ltb h.2 1
    then got false
    else first_is handshake_server_hello

pub select_reply-Implements : Implements select_reply (after_header select_parser)
unfolding select_reply
select_reply-Implements = after_header-Implements _ select_parser (λ h.
    if-Implements (not (h.0 == record_handshake) || ltb h.2 1) (pure false) _ (got false) _
      (pure-Implements false) (read_first-Implements handshake_server_hello))

pub found-select : (s : Bytes) → found false (after_header select_parser s) ≡ selects s
found-select [] = refl
found-select (t ∷ []) = refl
found-select (t ∷ v ∷ []) = refl
found-select (t ∷ v ∷ w ∷ []) = refl
found-select (t ∷ v ∷ w ∷ l ∷ []) = refl
found-select (t ∷ v ∷ w ∷ l ∷ m ∷ []) = ground arith
found-select (t ∷ v ∷ w ∷ l ∷ m ∷ b ∷ rest) = ground arith

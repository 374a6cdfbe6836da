-- ===== src/Net/Stream.antt =====
-- A reader that uses a connection only through `readFull` computes a function of the stream of
-- bytes that arrives. That function is its specification, and the way in which the bytes were cut
-- into packets is forgotten.
use tlsscan.Base.{
  [], leb→le, ℕ, List, length, take, drop, leb, if◌then◌else◌, ◌≡◌, refl, inl, inr, arith,
  Bool-cases,
}
use tlsscan.Wire.{Bytes}
use tlsscan.Net.{NetError, Conn, Result, ok, err, Io, after, ◌>>=◌, pure, fail, read_full}
use tlsscan.Net.Full.{flat, skip, flat-skip, read_full_lem}
use tlsscan.Net.Record.{header_fields, read_record_header}

-- What a reader finds in a stream: a value and the bytes behind it; too few bytes; or a refusal
-- of its own.
pub data Parsed (A : Type 0) : Type 0 where
  got : A → Bytes → Parsed A
  starved : Parsed A
  refused : NetError → Parsed A

abbrev pub Parser : Type 0 → Type 0
Parser A = Bytes → Parsed A

abbrev pub then_parse : {A B : Type 0} → Parsed A → (A → Parser B) → Parsed B
then_parse (got a rest) k = k a rest
then_parse starved k = starved
then_parse (refused e) k = refused e

-- The outcome `r` of a reader on the connection `c` is the one that the stream shows. Only the
-- packets that wait have changed.
abbrev pub Agrees : {A : Type 0} → Conn → Result A × Conn → Parsed A → Type 0
Agrees c r (got a rest) =
    (ps : List Bytes) × (r ≡ (ok a, record c { inbound = ps })) × (flat ps ≡ rest)
Agrees c r starved =
    (ps : List Bytes) × (r ≡ (err (c.peer.fault c.sent), record c { inbound = ps }))
Agrees c r (refused e) = (ps : List Bytes) × (r ≡ (err e, record c { inbound = ps }))

abbrev pub Implements : {A : Type 0} → Io A → Parser A → Type 0
Implements m p = (c : Conn) → Agrees c (m c) (p (flat c.inbound))

-- `n` bytes.
abbrev pub bytes : ℕ → Parser Bytes
bytes n s = if leb n (length s) then got (take n s) (drop n s) else starved

pub read_full-Implements : (n : ℕ) → Implements (read_full n) (bytes n)
read_full-Implements n c = elim (Bool-cases (leb n (length (flat c.inbound)))) [
  | inl e ↦ rw e (skip n c.inbound, (read_full_lem n c).0 (leb→le _ _ e), flat-skip n c.inbound)
  | inr e ↦ rw e ([], (read_full_lem n c).1 (ground arith))
]

pub pure-Implements : {A : Type 0} (a : A) → Implements (pure a) (got a)
pure-Implements a c = (c.inbound, refl, refl)

pub fail-Implements : {A : Type 0} (e : NetError) → Implements {A = A} (fail e) (λ s. refused e)
fail-Implements e c = (c.inbound, refl)

after-Agrees :
    {A B : Type 0} (c : Conn) (r : Result A × Conn) (q : Parsed A) (k : A → Io B) (l : A → Parser B)
    → Agrees c r q
    → ((a : A) → Implements (k a) (l a))
    → Agrees c (after r k) (then_parse q l)
after-Agrees c r (got a rest) k l (ps, e, f) h = rw (e, ← f) (h a (record c { inbound = ps }))
after-Agrees c r starved k l (ps, e) h = (ps, rw e)
after-Agrees c r (refused x) k l (ps, e) h = (ps, rw e)

-- Readers compose as their specifications do.
pub >>=-Implements :
    {A B : Type 0} (m : Io A) (p : Parser A) (k : A → Io B) (l : A → Parser B)
    → Implements m p
    → ((a : A) → Implements (k a) (l a))
    → Implements (m >>= k) (λ s. then_parse (p s) l)
>>=-Implements m p k l hm hk c = after-Agrees c (m c) (p (flat c.inbound)) k l (hm c) hk

abbrev pub header : Parser (ℕ × ℕ × ℕ)
header s = then_parse (bytes 5 s) (λ h. got (header_fields h))

pub read_record_header-Implements : Implements read_record_header header
unfolding read_record_header
read_record_header-Implements =
    >>=-Implements (read_full 5) (bytes 5) (λ h. pure (header_fields h))
      (λ h. got (header_fields h)) (read_full-Implements 5) (λ h. pure-Implements (header_fields h))

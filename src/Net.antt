-- ===== src/Net.antt =====
-- The connection that a probe drives, and `readFull` (legacy.go, heartbleed.go). The other side is
-- any function of what it has been sent so far: the packets that it sends in answer to the latest
-- write, whether that write succeeds, and the error of a read when no packet is waiting.
pub mod Full
pub mod Record
pub mod Step
pub mod Stream
pub mod Framed
use tlsscan.Base.{
  ℕ, zero, suc, ◌+◌, ◌-◌, Bool, List, [], ◌∷◌, ◌++◌, Option, none, some, true, false, length, take,
  drop, ltb, leb, if◌then◌else◌,
}
use tlsscan.Wire.{Bytes}

-- An `error`: whether it is a `net.Error` whose `Timeout()` holds, and its text.
pub record NetError : Type 0 where
  pub timeout : Bool
  pub message : Bytes

pub record Peer : Type 0 where
  pub reply : List Bytes → List Bytes
  pub accepts : List Bytes → Bool
  pub fault : List Bytes → NetError

pub record Conn : Type 0 where
  pub peer : Peer
  pub sent : List Bytes
  pub inbound : List Bytes

pub data Result {ℓ} (A : Type ℓ) : Type ℓ where
  ok : A → Result A
  err : NetError → Result A

-- A step that may fail, on the connection. After an error the rest is not run.
abbrev pub Io : Type 0 → Type 0
Io A = Conn → Result A × Conn

abbrev pub after : {A B : Type 0} → Result A × Conn → (A → Io B) → Result B × Conn
after (ok a, c) k = k a c
after (err e, c) k = (err e, c)

infixl 5 ◌>>=◌
abbrev pub ◌>>=◌ : {A B : Type 0} → Io A → (A → Io B) → Io B
◌>>=◌ m k c = after (m c) k

infixl 5 ◌>>◌
abbrev pub ◌>>◌ : {B : Type 0} → Io (Unit {0}) → Io B → Io B
m >> k = m >>= λ _. k

abbrev pub pure : {A : Type 0} → A → Io A
pure a c = (ok a, c)

abbrev pub fail : {A : Type 0} → NetError → Io A
fail e c = (err e, c)

-- `DialContext` on an address whose peer is known, or fails.
unfoldable pub dial : Option Peer → Option Conn
dial none = none
dial (some p) = some (record { peer = p; sent = []; inbound = [] })

-- `conn.Write(b)`: true if it succeeds. The peer then sends its answer.
unfoldable pub write : Bytes → Conn → Bool × Conn
write b c =
    let sent' = c.sent ++ b ∷ [] in
    if c.peer.accepts sent'
    then (true, record c { sent = sent'; inbound = c.inbound ++ c.peer.reply sent' })
    else (false, c)

-- `conn.Read` on the waiting packets: at most one packet at a time, the rest of which waits.
read_packets : ℕ → Conn → List Bytes → Result Bytes × Conn
read_packets n c [] = (err (c.peer.fault c.sent), c)
read_packets n c (p ∷ ps) =
    if leb (length p) n
    then (ok p, record c { inbound = ps })
    else (ok (take n p), record c { inbound = drop n p ∷ ps })

unfoldable pub read : ℕ → Io Bytes
unfolding read_packets
read n c = read_packets n c c.inbound

-- The loop of `readFull` on a buffer of `n` bytes, of which `got` is filled.
unfoldable pub read_loop : ℕ → ℕ → Bytes → Io Bytes
read_loop zero n got c = (err (c.peer.fault c.sent), c)
read_loop (suc fuel) n got c = elim (ltb (length got) n) [
  | false ↦ (ok got, c)
  | true ↦ after (read (n - length got) c) (λ b. read_loop fuel n (got ++ b))
]

-- `readFull`. Each read uses up a packet or fills the buffer.
unfoldable pub read_full : ℕ → Io Bytes
read_full n c = read_loop (length c.inbound + 2) n [] c

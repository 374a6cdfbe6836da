-- ===== src/Wire.antt =====
-- The byte layouts that the probes write and read: big-endian integers here, record and handshake
-- headers in Headers, ClientHello messages in Hello. A byte is a number below 256, and `byte(x)`
-- keeps the low 8 bits of `x`.
pub mod Headers
pub mod Hello
pub mod Grammar
pub mod Reading
pub mod Offers
use tlsscan.Base.{ℕ, ◌+◌, ◌*◌, ◌/◌, ◌%◌, ◌<◌, List, [], ◌∷◌, ◌≡◌, arith}

abbrev pub Bytes : Type 0
Bytes = List ℕ

-- `byte(x)`.
abbrev pub byte : ℕ → ℕ
byte x = x % 256

-- `byte(v >> 8), byte(v)`, which is also `binary.BigEndian.PutUint16`.
abbrev pub put16 : ℕ → Bytes
put16 v = byte (v / 256) ∷ byte v ∷ []

-- `byte(v >> 16), byte(v >> 8), byte(v)`.
abbrev pub put24 : ℕ → Bytes
put24 v = byte (v / 65536) ∷ byte (v / 256) ∷ byte v ∷ []

-- `binary.BigEndian.Uint16`, and the same for three bytes.
abbrev pub get16 : ℕ → ℕ → ℕ
get16 a b = a * 256 + b

abbrev pub get24 : ℕ → ℕ → ℕ → ℕ
get24 a b c = a * 65536 + b * 256 + c

pub get16-put16 : (v : ℕ) → v < 65536 → get16 (byte (v / 256)) (byte v) ≡ v
get16-put16 v h = omega arith

pub get24-put24 : (v : ℕ) → v < 16777216 → get24 (byte (v / 65536)) (byte (v / 256)) (byte v) ≡ v
get24-put24 v h = omega arith

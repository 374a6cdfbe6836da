-- ===== src/Wire/Grammar.antt =====
-- What a ClientHello record is, by RFC 5246, sections 6.2.1 and 7.4.1.2, and RFC 6066, section 3: a
-- reader that takes nothing but one whole record with one whole ClientHello, in which every length
-- is exact. The messages of the probes are measured against it.
use mathlib.Core.Option
use tlsscan.Base.{
  ℕ, zero, suc, ◌<◌, Bool, true, false, not, ◌&&◌, List, [], ◌∷◌, ◌++◌, Option, none, some, length,
  take, drop, leb, ◌==◌, if◌then◌else◌,
}
use tlsscan.Wire.{Bytes, put16, get16, get24}
use tlsscan.Wire.Headers.{record_handshake}

pub record Extension : Type 0 where
  pub kind : ℕ
  pub body : Bytes

abbrev pub encode : List Extension → Bytes
encode [] = []
encode (x ∷ xs) = put16 x.kind ++ (put16 (length x.body) ++ (x.body ++ encode xs))

-- Types and lengths fit their two bytes.
abbrev pub Fit : List Extension → Type 0
Fit [] = Unit
Fit (x ∷ xs) = (x.kind < 65536) × (length x.body < 65536) × Fit xs

pub record ClientHello : Type 0 where
  pub record_version : ℕ
  pub version : ℕ
  pub random : Bytes
  pub session_id : Bytes
  pub suites : List ℕ
  pub compressions : Bytes
  pub extensions : List Extension

abbrev pub is_empty : Bytes → Bool
is_empty [] = true
is_empty (b ∷ bs) = false

-- The rest of a reader, behind a value and with the bytes after it.
abbrev pub then_read : {A B : Type 0} → Option (A × Bytes) → (A → Bytes → Option B) → Option B
then_read none k = none
then_read (some (a, rest)) k = k a rest

abbrev pub uint8 : Bytes → Option (ℕ × Bytes)
uint8 [] = none
uint8 (a ∷ s) = some (a, s)

abbrev pub uint16 : Bytes → Option (ℕ × Bytes)
uint16 (a ∷ b ∷ s) = some (get16 a b, s)
uint16 _ = none

abbrev pub uint24 : Bytes → Option (ℕ × Bytes)
uint24 (a ∷ b ∷ c ∷ s) = some (get24 a b c, s)
uint24 _ = none

unfoldable pub read_bytes : Bytes → ℕ → Option (Bytes × Bytes)
read_bytes s n = if leb n (length s) then some (take n s, drop n s) else none

-- A vector whose length stands before it in one byte, or in two.
abbrev pub vector8 : Bytes → Option (Bytes × Bytes)
vector8 s = then_read (uint8 s) (λ n rest. read_bytes rest n)

abbrev pub vector16 : Bytes → Option (Bytes × Bytes)
vector16 s = then_read (uint16 s) (λ n rest. read_bytes rest n)

unfoldable pub pairs : Bytes → Option (List ℕ)
pairs [] = some []
pairs (a ∷ []) = none
pairs (a ∷ b ∷ s) = Option.map (λ vs. get16 a b ∷ vs) (pairs s)

abbrev pub with_extension : ℕ → Bytes → Option (List Extension) → Option (List Extension)
with_extension kind body = Option.map (λ xs. record { kind = kind; body = body } ∷ xs)

-- Each extension takes four bytes at least.
unfoldable pub read_extensions : ℕ → Bytes → Option (List Extension)
read_extensions fuel [] = some []
read_extensions zero (b ∷ s) = none
read_extensions (suc fuel) (b ∷ s) =
    then_read (uint16 (b ∷ s))
      λ kind s. then_read (vector16 s) λ body s. with_extension kind body (read_extensions fuel s)

-- No extensions, or a vector of them and nothing behind it.
unfoldable pub extension_block : Bytes → Option (List Extension)
unfolding read_extensions
extension_block [] = some []
extension_block (b ∷ s) =
    then_read (vector16 (b ∷ s))
      λ block rest. if is_empty rest then read_extensions (length block) block else none

abbrev pub built :
    ℕ → ℕ → Bytes → Bytes → Option (List ℕ) → Bytes → Option (List Extension) → Option ClientHello
built rv v random session_id (some suites) compressions (some xs) = some (record {
  record_version = rv;
  version = v;
  random = random;
  session_id = session_id;
  suites = suites;
  compressions = compressions;
  extensions = xs;
})
built rv v random session_id suites compressions xs = none

unfoldable pub read_body : ℕ → Bytes → Option ClientHello
read_body rv s = then_read (uint16 s) λ v s. then_read (read_bytes s 32) λ random s.
    then_read (vector8 s) λ session_id s. then_read (vector16 s) λ suites s.
      then_read (vector8 s) λ compressions s.
        if leb (length session_id) 32 && not (is_empty suites) && not (is_empty compressions)
        then built rv v random session_id (pairs suites) compressions (extension_block s)
        else none

unfoldable pub read_handshake : ℕ → Bytes → Option ClientHello
read_handshake rv s =
    then_read (uint8 s)
      λ t s. then_read (uint24 s) λ n s. if t == 0x01 && n == length s then read_body rv s else none

-- The fragment of a record has at most 2 ^ 14 bytes.
unfoldable pub read_client_hello : Bytes → Option ClientHello
read_client_hello s = then_read (uint8 s) λ t s. then_read (uint16 s) λ rv s.
    then_read (vector16 s) λ fragment rest.
      if t == record_handshake && is_empty rest && leb (length fragment) 16384
      then read_handshake rv fragment
      else none

-- The host name of a server_name extension: one entry, of the type host_name, that is not empty.
unfoldable pub read_server_name : Bytes → Option Bytes
read_server_name s = then_read (vector16 s) λ list rest. then_read (uint8 list) λ t entry.
    then_read (vector16 entry) λ name more.
      if t == 0x00 && is_empty rest && is_empty more && not (is_empty name) then some name else none

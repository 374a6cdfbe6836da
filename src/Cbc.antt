-- ===== src/Cbc.antt =====
-- internal/handshake/cbc.go: the cipher parameters, the session, and the records that are sent
-- under its keys. HMAC-SHA1, AES-CBC and the random bytes are parameters.
pub mod Prf
pub mod Padding
pub mod Flipped
pub mod Stimuli
pub mod Oracle
pub mod Stable
pub mod Decision
pub mod FalseAlarm
use Prim.Native.Nat.{bit_xor}
use tlsscan.Base.{
  ℕ, zero, suc, ◌+◌, ◌-◌, ◌/◌, ◌%◌, ◌^◌, Bool, true, false, not, List, [], ◌∷◌, ◌++◌, Option, none,
  some, length, replicate, ◌==◌, if◌then◌else◌,
}
use tlsscan.Base.Int.{ℤ, pos, negsuc}
use tlsscan.Wire.{Bytes, byte, put16}
use tlsscan.Wire.Headers.{record_application_data, version_tls12, wrap_tls12_record}
use tlsscan.Net.{Conn, write}

pub record CbcCipherParams : Type 0 where
  pub key_len : ℕ
  pub mac_len : ℕ
  pub iv_len : ℕ
  pub ecdhe : Bool

abbrev pub aes_params : ℕ → Bool → CbcCipherParams
aes_params k e = record { key_len = k; mac_len = 20; iv_len = 16; ecdhe = e }

unfoldable pub params_for_suite : ℕ → Option CbcCipherParams
params_for_suite suite =
    if suite == 0xc013
    then some (aes_params 16 true)
    else if suite == 0xc014
    then some (aes_params 32 true)
    else if suite == 0x002f
    then some (aes_params 16 false)
    else if suite == 0x0035
    then some (aes_params 32 false)
    else none

-- The primitives of the Go library. `hmac_sha1 key message`; `encrypt key iv plain` is `none` for
-- a key that `aes.NewCipher` refuses; `random n` is `none` if `rand.Read` fails.
pub record Crypto : Type 0 where
  pub hmac_sha1 : Bytes → Bytes → Bytes
  pub encrypt : Bytes → Bytes → Bytes → Option Bytes
  pub random : ℕ → Option Bytes

pub record CbcSession : Type 0 where
  pub conn : Conn
  pub params : CbcCipherParams
  pub client_write_key : Bytes
  pub server_write_key : Bytes
  pub client_write_mac : Bytes
  pub server_write_mac : Bytes
  pub client_seq : ℕ
  pub server_seq : ℕ

-- `binary.BigEndian.PutUint64`.
abbrev put64 : ℕ → Bytes
put64 v =
    byte (v / 2 ^ 56)
    ∷ byte (v / 2 ^ 48)
    ∷ byte (v / 2 ^ 40)
    ∷ byte (v / 2 ^ 32)
    ∷ byte (v / 2 ^ 24)
    ∷ byte (v / 2 ^ 16)
    ∷ byte (v / 2 ^ 8)
    ∷ byte v
    ∷ []

-- `mac[len(mac)-1] ^= 0xff`, if there is a last byte.
unfoldable pub flip_last : Bytes → Bytes
flip_last [] = []
flip_last (b ∷ []) = bit_xor b 0xff ∷ []
flip_last (b ∷ c ∷ bs) = b ∷ flip_last (c ∷ bs)

-- The length byte of valid padding for `n` bytes before it.
abbrev pub pad_len : ℕ → ℕ → ℕ
pad_len block n = let rem = (n + 1) % block in if not (rem == 0) then block - rem else 0

-- What `macThenPad` appends: `padOverride + 1` bytes of that value if it is not negative, and
-- else valid padding up to a multiple of the block.
abbrev pub padding : ℕ → ℕ → ℤ → Bytes
padding block n (pos p) = replicate (p + 1) (byte p)
padding block n (negsuc _) = replicate (pad_len block n + 1) (byte (pad_len block n))

-- `append(plain, make([]byte, pad)...)` where the plaintext is not aligned.
unfoldable pub align : ℕ → Bytes → Bytes
align block plain =
    if not (length plain % block == 0)
    then plain ++ replicate (block - length plain % block) 0
    else plain

-- The write of a crafted record: the sequence number grows only if it succeeds.
abbrev pub deliver : CbcSession → Bool × Conn → Bool × CbcSession
deliver s (true, c) = (true, record s { conn = c; client_seq = (s.client_seq + 1) % 2 ^ 64 })
deliver s (false, c) = (false, record s { conn = c })

abbrev pub sent_record : CbcSession → Option Bytes → Bool × CbcSession
sent_record s none = (false, s)
sent_record s (some rec) = deliver s (write rec s.conn)

module _ (crypto : Crypto) where
  unfoldable pub compute_mac : Bytes → ℕ → ℕ → Bytes → Bytes
  compute_mac mac_key seq content_type content =
      let hdr = put64 seq ++ (content_type ∷ (put16 version_tls12 ++ put16 (length content))) in
      crypto.hmac_sha1 mac_key (hdr ++ content)

  unfoldable pub mac_then_pad : CbcSession → ℕ → Bytes → Bool → ℤ → Bytes
  mac_then_pad s content_type content force_bad_mac pad_override =
      let mac = compute_mac s.client_write_mac s.client_seq content_type content in
      let plain = content ++ (if force_bad_mac then flip_last mac else mac) in
      plain ++ padding s.params.iv_len (length plain) pad_override

  unfoldable pub encrypt_record : CbcSession → ℕ → Bytes → Option Bytes
  encrypt_record s content_type plain = elim (crypto.random s.params.iv_len) [
    | none ↦ none
    | some iv ↦ elim (crypto.encrypt s.client_write_key iv (align s.params.iv_len plain)) [
      | none ↦ none
      | some ct ↦ some (wrap_tls12_record content_type (iv ++ ct))
    ]
  ]

  unfoldable pub send_crafted : CbcSession → Bytes → Bool → ℤ → Bool × CbcSession
  send_crafted s content force_bad_mac pad_override = sent_record s (
      encrypt_record s record_application_data
        (mac_then_pad s record_application_data content force_bad_mac pad_override))

-- ===== src/Session/Ready.antt =====
-- internal/handshake/cbc.go: what holds of every session that `establishCBCSession` returns, and of
-- what `sendCrafted` makes of it.
use tlsscan.Base.{
  ℕ, ◌+◌, ◌*◌, ◌%◌, ◌^◌, Bool, true, false, some, length, drop, ◌==◌, ◌≡◌, ◌⊎◌, refl, arith, inl,
  inr, Bool-cases, length-take, length-drop,
}
use mathlib.Core.Option.{some-injective, none-ne-some}
use tlsscan.Wire.{Bytes}
use tlsscan.Net.{Conn}
use tlsscan.Cbc.{CbcCipherParams, aes_params, CbcSession, params_for_suite}
use tlsscan.Session.Reader.{next}
use tlsscan.Session.Messages.{next_parser, next_loop-Implements}
use tlsscan.Session.Keys.{new_session}
use tlsscan.Session.Yields.{Yields, Anything, Implements-Yields}

-- A CBC suite of AES and SHA-1.
pub record IsCbcSuite (params : CbcCipherParams) : Type 0 where
  pub aes_key : (params.key_len ≡ 16) ⊎ (params.key_len ≡ 32)
  pub sha1_mac : params.mac_len ≡ 20
  pub aes_block : params.iv_len ≡ 16

-- The keys have the lengths of the suite.
pub record HasKeys (s : CbcSession) : Type 0 where
  pub suite : IsCbcSuite s.params
  pub client_mac : length s.client_write_mac ≡ s.params.mac_len
  pub server_mac : length s.server_write_mac ≡ s.params.mac_len
  pub client_key : length s.client_write_key ≡ s.params.key_len
  pub server_key : length s.server_write_key ≡ s.params.key_len

-- Besides, the sequence number counts the records that the client has encrypted: every message
-- that it has sent but the first three.
pub record IsReady (s : CbcSession) : Type 0 where
  pub has_keys : HasKeys s
  pub counted : length s.conn.sent % 2 ^ 64 ≡ (3 + s.client_seq) % 2 ^ 64

aes_suite :
    (k : ℕ) (e : Bool) (params : CbcCipherParams)
    → (k ≡ 16) ⊎ (k ≡ 32)
    → some (aes_params k e) ≡ some params
    → IsCbcSuite params
aes_suite k e params h p =
    let q : aes_params k e ≡ params = some-injective _ _ p in
    let s : IsCbcSuite (aes_params k e) = record {
      aes_key = h;
      sha1_mac = refl;
      aes_block = refl;
    } in
    rw q at s

pub params_for_suite-IsCbcSuite :
    (suite : ℕ) (params : CbcCipherParams)
    → params_for_suite suite ≡ some params
    → IsCbcSuite params
unfolding params_for_suite
params_for_suite-IsCbcSuite suite params e = elim (Bool-cases (suite == 0xc013)) [
  | inl a ↦ aes_suite 16 true params (inl refl) (rw a at e)
  | inr a ↦ elim (Bool-cases (suite == 0xc014)) [
    | inl b ↦ aes_suite 32 true params (inr refl) (rw (a, b) at e)
    | inr b ↦ elim (Bool-cases (suite == 0x002f)) [
      | inl c ↦ aes_suite 16 false params (inl refl) (rw (a, b, c) at e)
      | inr c ↦ elim (Bool-cases (suite == 0x0035)) [
        | inl d ↦ aes_suite 32 false params (inr refl) (rw (a, b, c, d) at e)
        | inr d ↦ absurd (none-ne-some params (rw (a, b, c, d) at e))
      ]
    ]
  ]
]

pub next-Yields : (buf : Bytes) → Yields 0 Anything (next buf)
unfolding next
next-Yields buf =
    Implements-Yields (next buf) (next_parser 262146 buf) (next_loop-Implements 262146 buf)

pub new_session_lem :
    (c : Conn) (params : CbcCipherParams) (block : Bytes)
    → length block ≡ 2 * params.mac_len + 2 * params.key_len
    → (length (new_session c params block).client_write_mac ≡ params.mac_len)
      × (length (new_session c params block).server_write_mac ≡ params.mac_len)
      × (length (new_session c params block).client_write_key ≡ params.key_len)
      × (length (new_session c params block).server_write_key ≡ params.key_len)
unfolding new_session
new_session_lem c params block h =
    let m = params.mac_len in
    let k = params.key_len in
    (
      omega (arith, length-take m block),
      omega (arith, length-take m (drop m block), length-drop m block),
      omega (arith, length-take k (drop (m + m) block), length-drop (m + m) block),
      omega (arith, length-take k (drop (m + m + k) block), length-drop (m + m + k) block),
    )

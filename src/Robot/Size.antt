-- ===== src/Robot/Size.antt =====
-- internal/handshake/robot.go: the sizes of `rsaEncrypt` and of the crafted ClientKeyExchange.
use tlsscan.Base.{
  ℕ, ◌+◌, ◌-◌, ◌/◌, ◌≤◌, ◌<◌, length, replicate, ltb, ◌≡◌, arith, inl, inr, Bool-cases,
  length-append, length-replicate,
}
use tlsscan.Wire.{Bytes}
use tlsscan.Session.{RsaPublicKey}
use tlsscan.Robot.Exchange.{BigInt, modulus_len, rsa_encrypt}

-- What is relied on of math/big: `Exp` reduces by a positive modulus, and `Bytes` has no leading
-- zero bytes, so that a number below `n` takes no more bytes than the bits of `n` need.
pub record IsBigInt (big : BigInt) : Type 0 where
  pub reduces : (m e n : ℕ) → 0 < n → big.exp m e n < n
  pub is_short : (c n : ℕ) → c < n → length (big.to_bytes c) ≤ (big.bit_len n + 7) / 8

-- For a modulus that is not zero, and with what is relied on of math/big, `rsaEncrypt` returns
-- exactly as many bytes as the modulus has, whatever block it is given.
pub length-rsa_encrypt :
    (big : BigInt) (key : RsaPublicKey) (block : Bytes)
    → IsBigInt big
    → 0 < key.n
    → length (rsa_encrypt big key block) ≡ modulus_len big key
unfolding rsa_encrypt
length-rsa_encrypt big key block laws pos =
    let k = modulus_len big key in
    let out = big.to_bytes (big.exp (big.set_bytes block) key.e key.n) in
    let z : ℕ = 0 in
    let le : length out ≤ k = laws.is_short _ key.n (laws.reduces _ key.e key.n pos) in
    elim (Bool-cases (ltb (length out) k)) [
      | inl e ↦ rw e (
          omega (
            arith,
            length-append (replicate (k - length out) z) out,
            length-replicate (k - length out) z,
          ))
      | inr e ↦ rw e (ground arith)
    ]

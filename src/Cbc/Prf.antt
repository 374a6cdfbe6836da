-- ===== src/Cbc/Prf.antt =====
-- The PRF of TLS 1.2 (cbc.go: `pHashSHA256`, `prf12`) over any HMAC-SHA256.
use tlsscan.Base.{
  ℕ, zero, suc, ◌+◌, ◌*◌, ◌≤◌, true, false, [], ◌++◌, length, take, ltb, ◌≡◌, ◌∙◌, refl, sym, ap,
  arith, inl, inr, Bool-cases, length-append, append_assoc, append-nil, length-take, take-append_le,
}
use tlsscan.Wire.{Bytes}

module _ (hmac_sha256 : Bytes → Bytes → Bytes) where
  -- The loop `for len(out) < outLen`; `a` is A(i).
  unfoldable pub p_hash_loop : ℕ → Bytes → Bytes → ℕ → Bytes → Bytes → Bytes
  p_hash_loop zero secret seed out_len a out = out
  p_hash_loop (suc fuel) secret seed out_len a out = elim (ltb (length out) out_len) [
    | false ↦ out
    | true ↦
        let a' = hmac_sha256 secret a in
        p_hash_loop fuel secret seed out_len a' (out ++ hmac_sha256 secret (a' ++ seed))
  ]

  -- `out_len` rounds are enough, since each adds at least a byte.
  unfoldable pub p_hash_sha256 : Bytes → Bytes → ℕ → Bytes
  p_hash_sha256 secret seed out_len = take out_len (p_hash_loop out_len secret seed out_len seed [])

  unfoldable pub prf12 : Bytes → Bytes → Bytes → ℕ → Bytes
  prf12 secret label seed = p_hash_sha256 secret (label ++ seed)

  -- RFC 5246, section 5: the first `k` blocks of P_hash, with A(i) before them.
  abbrev pub p_blocks : ℕ → Bytes → Bytes → Bytes → Bytes
  p_blocks zero secret seed a = []
  p_blocks (suc k) secret seed a =
      let a' = hmac_sha256 secret a in hmac_sha256 secret (a' ++ seed) ++ p_blocks k secret seed a'

  -- What is relied on: a digest of 32 bytes.
  abbrev pub IsSha256 : Type 0
  IsSha256 = (key message : Bytes) → length (hmac_sha256 key message) ≡ 32

  module _ (sha256 : IsSha256) where
    length-p_blocks : (k : ℕ) (secret seed a : Bytes) → length (p_blocks k secret seed a) ≡ 32 * k
    length-p_blocks zero secret seed a = refl
    length-p_blocks (suc k) secret seed a =
        let a' = hmac_sha256 secret a in
        omega (
          arith,
          length-append (hmac_sha256 secret (a' ++ seed)) (p_blocks k secret seed a'),
          sha256 secret (a' ++ seed),
          length-p_blocks k secret seed a',
        )

    -- The loop agrees with the blocks on the bytes that are asked for.
    loop_blocks :
        (k fuel : ℕ) (secret seed : Bytes) (n : ℕ) (a out : Bytes)
        → n ≤ length out + fuel
        → n ≤ length out + 32 * k
        → take n (p_hash_loop fuel secret seed n a out) ≡ take n (out ++ p_blocks k secret seed a)
    unfolding p_hash_loop
    loop_blocks k zero secret seed n a out hf hk =
        sym (take-append_le n out (p_blocks k secret seed a) (omega arith))
    loop_blocks zero (suc fuel) secret seed n a out hf hk =
        let e : ltb (length out) n ≡ false = ground arith in rw (e, p_hash_loop, append-nil)
    loop_blocks (suc k) (suc fuel) secret seed n a out hf hk =
        let a' = hmac_sha256 secret a in
        let block = hmac_sha256 secret (a' ++ seed) in
        let len = length-append out block in
        let digest = sha256 secret (a' ++ seed) in
        elim (Bool-cases (ltb (length out) n)) [
          | inl e ↦
              rw (e, p_hash_loop)
                (loop_blocks k fuel secret seed n a' (out ++ block) (omega arith) (omega arith)
                  ∙ rw append_assoc)
          | inr e ↦
              rw (e, p_hash_loop)
                (sym (take-append_le n out (p_blocks (suc k) secret seed a) (ground arith)))
        ]

    -- With digests of 32 bytes, `pHashSHA256` returns exactly `out_len` bytes, and they are the
    -- first ones of P_hash of RFC 5246, that is of any `k` blocks of it that hold so many.
    pub p_hash_sha256_lem :
        (k : ℕ) (secret seed : Bytes) (out_len : ℕ)
        → out_len ≤ 32 * k
        → (p_hash_sha256 secret seed out_len ≡ take out_len (p_blocks k secret seed seed))
          × (length (p_hash_sha256 secret seed out_len) ≡ out_len)
    unfolding p_hash_sha256
    p_hash_sha256_lem k secret seed out_len h =
        let e = loop_blocks k out_len secret seed out_len seed [] (omega arith) (omega arith) in
        (
          e,
          ap length e
              ∙ omega (
                arith,
                length-take out_len (p_blocks k secret seed seed),
                length-p_blocks k secret seed seed,
              ),
        )

-- ===== src/Robot/Vectors.antt =====
-- internal/handshake/robot.go: the five vectors, as a PKCS#1 v1.5 decoder sees them.
use tlsscan.Base.{
  ℕ, zero, suc, ◌+◌, ◌≤◌, ◌&&◌, [], ◌∷◌, ◌++◌, Option, none, some, length, replicate, length-append,
  leb, ◌==◌, if◌then◌else◌, ◌≡◌, refl, arith, length-replicate,
}
use tlsscan.Wire.{Bytes}
use tlsscan.Robot.{
  RobotVectorKind, vec_correct, vec_wrong_first_bytes, vec_no_00, vec_00_in_padding,
  vec_00_at_wrong_pms_pos, ps_len, wrong_version, build_pkcs1_vector,
}
use tlsscan.Robot.Built.{
  ps_len_room, build-vec_correct, length-wrong_version, build-vec_wrong_version,
  build-vec_wrong_first_bytes, build-vec_no_00, build-vec_00_in_padding,
}

-- EME-PKCS1-v1_5 decoding (RFC 8017, section 7.2.2): 00 02, at least 8 bytes that are not 0, a 0,
-- and the message. `n` counts the padding bytes seen.
after_padding : ℕ → Bytes → Option Bytes
after_padding n [] = none
after_padding n (b ∷ bs) =
    let rest = after_padding (suc n) bs in
    if b == 0 then (if leb 8 n then some bs else none) else rest

unfoldable pub decode : Bytes → Option Bytes
unfolding after_padding
decode (a ∷ b ∷ bs) = if a == 0x00 && b == 0x02 then after_padding 0 bs else none
decode _ = none

after_padding-replicate :
    (ps n : ℕ) (m : Bytes) → 8 ≤ n + ps → after_padding n (replicate ps 0xff ++ 0x00 ∷ m) ≡ some m
unfolding after_padding
after_padding-replicate zero n m h = ground arith
after_padding-replicate (suc ps) n m h = after_padding-replicate ps (suc n) m (omega arith)

after_padding-none : (n k : ℕ) → after_padding n (replicate k 0xff) ≡ none
unfolding after_padding
after_padding-none n zero = refl
after_padding-none n (suc k) = after_padding-none (suc n) k

-- The vector is built with no panic, is as long as the modulus, and decodes to `r`.
abbrev pub Decodes : RobotVectorKind → ℕ → Bytes → Option Bytes → Type 0
Decodes kind k pms r =
    (b : Bytes) × (build_pkcs1_vector kind k pms ≡ some b) × (length b ≡ k) × (decode b ≡ r)

length-framed :
    (k : ℕ) (a b : ℕ) (pms src : Bytes)
    → length pms + 11 ≤ k
    → length src ≡ length pms
    → length (a ∷ b ∷ (replicate (ps_len k (length pms)) 0xff ++ 0x00 ∷ src)) ≡ k
length-framed k a b pms src h e =
    let (size, _) = ps_len_room k (length pms) h in
    omega (
      arith,
      length-append {A = ℕ} (replicate (ps_len k (length pms)) 0xff) (0x00 ∷ src),
      length-replicate {A = ℕ} (ps_len k (length pms)) 0xff,
    )

decode_framed :
    (ps : ℕ) (src : Bytes)
    → 8 ≤ ps
    → decode (0x00 ∷ 0x02 ∷ (replicate ps 0xff ++ 0x00 ∷ src)) ≡ some src
unfolding decode
decode_framed ps src h = after_padding-replicate ps 0 src (omega arith)

decode_no_00 : (n : ℕ) → decode (0x00 ∷ 0x02 ∷ replicate n 0xff) ≡ none
unfolding decode
decode_no_00 n = after_padding-none 0 n

decode_early : (n : ℕ) → decode (0x00 ∷ 0x02 ∷ 0xff ∷ 0xff ∷ 0x00 ∷ replicate n 0xff) ≡ none
unfolding decode
decode_early n = refl

decode_head : (bs : Bytes) → decode (0x41 ∷ 0x17 ∷ bs) ≡ none
unfolding decode
decode_head bs = refl

no_00_Decodes : (k : ℕ) (pms : Bytes) → 11 ≤ k → Decodes vec_no_00 k pms none
no_00_Decodes zero pms h = absurd (omega arith)
no_00_Decodes (suc zero) pms h = absurd (omega arith)
no_00_Decodes (suc (suc n)) pms h =
    (_, build-vec_no_00 n pms, omega (arith, length-replicate {A = ℕ} n 0xff), decode_no_00 n)

early_Decodes : (k : ℕ) (pms : Bytes) → 11 ≤ k → Decodes vec_00_in_padding k pms none
early_Decodes (suc (suc (suc (suc (suc n))))) pms h = (
  _,
  build-vec_00_in_padding n pms,
  omega (arith, length-replicate {A = ℕ} n 0xff),
  decode_early n,
)
early_Decodes zero pms h = absurd (omega arith)
early_Decodes (suc zero) pms h = absurd (omega arith)
early_Decodes (suc (suc zero)) pms h = absurd (omega arith)
early_Decodes (suc (suc (suc zero))) pms h = absurd (omega arith)
early_Decodes (suc (suc (suc (suc zero)))) pms h = absurd (omega arith)

-- For a modulus with room for the PMS and 11 bytes, the correct vector decodes to the PMS, three
-- of the malformed ones do not decode at all, and the last one decodes to the PMS with the wrong
-- version.
pub vectors_decoded :
    (k : ℕ) (pms : Bytes)
    → length pms + 11 ≤ k
    → Decodes vec_correct k pms (some pms)
      × Decodes vec_wrong_first_bytes k pms none
      × Decodes vec_no_00 k pms none
      × Decodes vec_00_in_padding k pms none
      × Decodes vec_00_at_wrong_pms_pos k pms (some (wrong_version pms))
vectors_decoded k pms h =
    let (_, eight) = ps_len_room k (length pms) h in
    let ps = ps_len k (length pms) in
    (
      (
        _,
        build-vec_correct k pms h,
        length-framed k 0x00 0x02 pms pms h refl,
        decode_framed ps pms eight,
      ),
      (
        _,
        build-vec_wrong_first_bytes k pms h,
        length-framed k 0x41 0x17 pms pms h refl,
        decode_head _,
      ),
      no_00_Decodes k pms (omega arith),
      early_Decodes k pms (omega arith),
      (
        _,
        build-vec_wrong_version k pms h,
        length-framed k 0x00 0x02 pms (wrong_version pms) h (length-wrong_version pms),
        decode_framed ps (wrong_version pms) eight,
      ),
    )

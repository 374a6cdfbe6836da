-- ===== src/Robot/Built.antt =====
-- internal/handshake/robot.go: the blocks that `buildPKCS1Vector` builds, written out.
use tlsscan.Base.{
  ℕ, zero, suc, ◌+◌, ◌-◌, ◌≤◌, true, [], ◌∷◌, ◌++◌, some, length, replicate, drop, drop_all,
  append-nil, leb, ◌≡◌, refl, arith, length-replicate,
}
use native.Mathlib.Nat.{sub-zero}
use tlsscan.Wire.{Bytes}
use tlsscan.Robot.{
  vec_correct, vec_wrong_first_bytes, vec_no_00, vec_00_in_padding, vec_00_at_wrong_pms_pos, set_at,
  fill, header, ps_len, wrong_version, build_pkcs1_vector,
}
use tlsscan.Robot.Block.{frame_lem}

pub ps_len_room : (k m : ℕ) → m + 11 ≤ k → (k ≡ ps_len k m + suc m + 2) × (8 ≤ ps_len k m)
ps_len_room k m h = ground arith

-- The well-formed vector is 00 02, the padding string, 00 and the PMS.
pub build-vec_correct :
    (k : ℕ) (pms : Bytes)
    → length pms + 11 ≤ k
    → build_pkcs1_vector vec_correct k pms
      ≡ some (0x00 ∷ 0x02 ∷ (replicate (ps_len k (length pms)) 0xff ++ 0x00 ∷ pms))
unfolding build_pkcs1_vector header set_at
build-vec_correct zero pms h = absurd (omega arith)
build-vec_correct (suc zero) pms h = absurd (omega arith)
build-vec_correct (suc (suc n)) pms h =
    let (size, _) = ps_len_room (suc (suc n)) (length pms) h in
    frame_lem 0x00 0x02 (replicate n 0) pms (ps_len (suc (suc n)) (length pms))
      (omega (arith, length-replicate {A = ℕ} n 0))

pub length-wrong_version : (pms : Bytes) → length (wrong_version pms) ≡ length pms
length-wrong_version [] = refl
length-wrong_version (a ∷ []) = refl
length-wrong_version (a ∷ b ∷ rest) = refl

-- The same with another message, and with another head.
pub build-vec_wrong_version :
    (k : ℕ) (pms : Bytes)
    → length pms + 11 ≤ k
    → build_pkcs1_vector vec_00_at_wrong_pms_pos k pms
      ≡ some (0x00 ∷ 0x02 ∷ (replicate (ps_len k (length pms)) 0xff ++ 0x00 ∷ wrong_version pms))
unfolding build_pkcs1_vector header set_at
build-vec_wrong_version zero pms h = absurd (omega arith)
build-vec_wrong_version (suc zero) pms h = absurd (omega arith)
build-vec_wrong_version (suc (suc n)) pms h =
    let (size, _) = ps_len_room (suc (suc n)) (length pms) h in
    frame_lem 0x00 0x02 (replicate n 0) (wrong_version pms) (ps_len (suc (suc n)) (length pms))
      (omega (arith, length-replicate {A = ℕ} n 0, length-wrong_version pms))

fill_all : (k : ℕ) → fill 0 k (replicate k 0) ≡ some (replicate k 0xff)
unfolding fill
fill_all k =
    let n = length-replicate {A = ℕ} k 0 in
    let lo : leb 0 k ≡ true = ground arith in
    let hi : leb k (length (replicate {A = ℕ} k 0)) ≡ true = ground arith in
    let gone : drop k (replicate {A = ℕ} k 0) ≡ [] = drop_all k (replicate k 0) (omega arith) in
    rw (lo, hi, gone, append-nil, sub-zero)

fill_tail :
    (a b n : ℕ) → fill 2 (suc (suc n)) (a ∷ b ∷ replicate n 0) ≡ some (a ∷ b ∷ replicate n 0xff)
unfolding fill
fill_tail a b n =
    let len = length-replicate {A = ℕ} n 0 in
    let lo : leb 2 (suc (suc n)) ≡ true = ground arith in
    let hi : leb (suc (suc n)) (suc (suc (length (replicate {A = ℕ} n 0)))) ≡ true = ground arith in
    let gone : drop n (replicate {A = ℕ} n 0) ≡ [] = drop_all n (replicate n 0) (omega arith) in
    let e : suc (suc n) - 2 ≡ n = omega arith in rw (lo, hi, gone, e, append-nil)

pub build-vec_wrong_first_bytes :
    (k : ℕ) (pms : Bytes)
    → length pms + 11 ≤ k
    → build_pkcs1_vector vec_wrong_first_bytes k pms
      ≡ some (0x41 ∷ 0x17 ∷ (replicate (ps_len k (length pms)) 0xff ++ 0x00 ∷ pms))
unfolding build_pkcs1_vector header set_at
build-vec_wrong_first_bytes zero pms h = absurd (omega arith)
build-vec_wrong_first_bytes (suc zero) pms h = absurd (omega arith)
build-vec_wrong_first_bytes (suc (suc n)) pms h =
    let (size, _) = ps_len_room (suc (suc n)) (length pms) h in
    rw (fill_all (suc (suc n))) (
      frame_lem 0x41 0x17 (replicate n 0xff) pms (ps_len (suc (suc n)) (length pms))
        (omega (arith, length-replicate {A = ℕ} n 0xff)))

pub build-vec_no_00 :
    (n : ℕ) (pms : Bytes)
    → build_pkcs1_vector vec_no_00 (suc (suc n)) pms ≡ some (0x00 ∷ 0x02 ∷ replicate n 0xff)
unfolding build_pkcs1_vector header set_at
build-vec_no_00 n pms = fill_tail 0x00 0x02 n

pub build-vec_00_in_padding :
    (n : ℕ) (pms : Bytes)
    → build_pkcs1_vector vec_00_in_padding (suc (suc (suc (suc (suc n))))) pms
      ≡ some (0x00 ∷ 0x02 ∷ 0xff ∷ 0xff ∷ 0x00 ∷ replicate n 0xff)
unfolding build_pkcs1_vector header set_at
build-vec_00_in_padding n pms = rw (fill_tail 0x00 0x02 (suc (suc (suc n))))

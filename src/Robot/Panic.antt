-- ===== src/Robot/Panic.antt =====
-- internal/handshake/robot.go: `buildPKCS1Vector` on a short modulus.
use tlsscan.Base.{ℕ, zero, suc, ◌≤◌, none, length, replicate, ◌≡◌, refl, arith}
use tlsscan.Wire.{Bytes}
use tlsscan.Robot.{
  vec_correct, vec_00_at_wrong_pms_pos, ◌>>=◌, set_at, fill, frame, header, ps_len, wrong_version,
  build_pkcs1_vector,
}

short_block :
    (k : ℕ) (src : Bytes) → k ≤ 10 → (header 0x00 0x02 (replicate k 0) >>= frame 8 src) ≡ none
unfolding header set_at frame fill
short_block zero src h = refl
short_block (suc zero) src h = refl
short_block (suc (suc zero)) src h = refl
short_block (suc (suc (suc zero))) src h = refl
short_block (suc (suc (suc (suc zero)))) src h = refl
short_block (suc (suc (suc (suc (suc zero))))) src h = refl
short_block (suc (suc (suc (suc (suc (suc zero)))))) src h = refl
short_block (suc (suc (suc (suc (suc (suc (suc zero))))))) src h = refl
short_block (suc (suc (suc (suc (suc (suc (suc (suc zero)))))))) src h = refl
short_block (suc (suc (suc (suc (suc (suc (suc (suc (suc zero))))))))) src h = refl
short_block (suc (suc (suc (suc (suc (suc (suc (suc (suc (suc zero)))))))))) src h = refl
short_block (suc (suc (suc (suc (suc (suc (suc (suc (suc (suc (suc n))))))))))) src h =
    absurd (omega arith)

-- For a modulus of at most 10 bytes and any PMS, `buildPKCS1Vector` panics on the correct vector
-- and on the one with the wrong version.
pub build_panics :
    (k : ℕ) (pms : Bytes)
    → k ≤ 10
    → (build_pkcs1_vector vec_correct k pms ≡ none)
      × (build_pkcs1_vector vec_00_at_wrong_pms_pos k pms ≡ none)
unfolding build_pkcs1_vector
build_panics k pms h =
    let raised : ps_len k (length pms) ≡ 8 = ground arith in
    rw raised (short_block k pms h, short_block k (wrong_version pms) h)

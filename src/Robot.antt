-- ===== src/Robot.antt =====
-- internal/handshake/robot.go: the PKCS#1 v1.5 vectors, the crafted messages, and the decision of
-- the ROBOT probe. A slice expression or an index out of range panics, which is `none`.
pub mod Block
pub mod Built
pub mod Vectors
pub mod Panic
pub mod Decision
pub mod Flight
pub mod Exchange
pub mod Server
pub mod Steady
pub mod Oracle
pub mod Messages
pub mod Coalesced
pub mod Size
use tlsscan.Base.{
  ℕ, zero, suc, ◌+◌, ◌-◌, Bool, true, false, List, [], ◌∷◌, ◌++◌, Option, none, some, length, take,
  drop, replicate, ltb, leb, ◌&&◌, if◌then◌else◌,
}
use tlsscan.Wire.{Bytes, put16, put24}
use tlsscan.Wire.Headers.{record_handshake, record_change_cipher_spec, wrap_tls12_record}
use tlsscan.Reaction.{Reaction, equal}
use tlsscan.Cbc.Oracle.{stable}

pub data RobotVectorKind : Type 0 where
  vec_correct vec_wrong_first_bytes vec_no_00 vec_00_in_padding vec_00_at_wrong_pms_pos :
      RobotVectorKind

abbrev pub all_robot_vectors : List RobotVectorKind
all_robot_vectors =
    vec_correct ∷ vec_wrong_first_bytes ∷ vec_no_00 ∷ vec_00_in_padding ∷ vec_00_at_wrong_pms_pos
    ∷ []

infixl 5 ◌>>=◌
abbrev pub ◌>>=◌ : Option Bytes → (Bytes → Option Bytes) → Option Bytes
none >>= f = none
some b >>= f = f b

-- `block[i] = v`.
unfoldable pub set_at : ℕ → ℕ → Bytes → Option Bytes
set_at i v [] = none
set_at zero v (b ∷ bs) = some (v ∷ bs)
set_at (suc i) v (b ∷ bs) = set_at i v bs >>= λ r. some (b ∷ r)

-- `fillNonZero(block[lo:hi])`.
unfoldable pub fill : ℕ → ℕ → Bytes → Option Bytes
fill lo hi block =
    if leb lo hi && leb hi (length block)
    then some (take lo block ++ (replicate (hi - lo) 0xff ++ drop hi block))
    else none

-- `copy(block[lo:], src)`, which copies as much as fits.
unfoldable pub copy_at : ℕ → Bytes → Bytes → Option Bytes
copy_at lo src block =
    if leb lo (length block)
    then some (take lo block ++ (take (length block - lo) src ++ drop (lo + length src) block))
    else none

-- The length of the padding string, where a difference below 8 (or below 0) is raised to 8.
abbrev pub ps_len : ℕ → ℕ → ℕ
ps_len k m = let n = k - 3 - m in if ltb n 8 then 8 else n

-- Padding from index 2, the 0x00 behind it, and the message behind that.
unfoldable pub frame : ℕ → Bytes → Bytes → Option Bytes
frame ps src block = fill 2 (suc (suc ps)) block >>= λ b.
    set_at (suc (suc ps)) 0x00 b >>= λ c. copy_at (suc (suc (suc ps))) src c

-- The first two bytes.
unfoldable pub header : ℕ → ℕ → Bytes → Option Bytes
header a b block = set_at 0 a block >>= λ c. set_at 1 b c

-- The message of the last vector: the PMS with the version 0x0202.
abbrev pub wrong_version : Bytes → Bytes
wrong_version (a ∷ b ∷ rest) = 0x02 ∷ 0x02 ∷ rest
wrong_version pms = pms

unfoldable pub build_pkcs1_vector : RobotVectorKind → ℕ → Bytes → Option Bytes
build_pkcs1_vector vec_correct k pms =
    header 0x00 0x02 (replicate k 0) >>= frame (ps_len k (length pms)) pms
build_pkcs1_vector vec_wrong_first_bytes k pms =
    fill 0 k (replicate k 0) >>= λ b. header 0x41 0x17 b >>= frame (ps_len k (length pms)) pms
build_pkcs1_vector vec_no_00 k pms = header 0x00 0x02 (replicate k 0) >>= fill 2 k
build_pkcs1_vector vec_00_in_padding k pms =
    header 0x00 0x02 (replicate k 0) >>= λ b. fill 2 k b >>= set_at 4 0x00
build_pkcs1_vector vec_00_at_wrong_pms_pos k pms =
    header 0x00 0x02 (replicate k 0) >>= frame (ps_len k (length pms)) (wrong_version pms)

unfoldable pub robot_client_key_exchange : Bytes → Bytes
robot_client_key_exchange cipher =
    let body = put16 (length cipher) ++ cipher in
    wrap_tls12_record record_handshake (0x10 ∷ (put24 (length body) ++ body))

unfoldable pub robot_change_cipher_spec : Bytes
robot_change_cipher_spec = wrap_tls12_record record_change_cipher_spec (0x01 ∷ [])

unfoldable pub robot_bogus_finished : Bytes
robot_bogus_finished = wrap_tls12_record record_handshake (replicate 40 0x0c)

abbrev pub is_correct : RobotVectorKind → Bool
is_correct vec_correct = true
is_correct _ = false

-- How the discovery of the key and one exchange go depends on the network, the state `W`.
module _ {W : Type 0} (discover : W → Bool × W)
    (exchange : RobotVectorKind → W → Option Reaction × W) where
  -- The signature of a malformed vector against the one of the correct vector.
  unfoldable pub compare_with : (W → Bool × W) → Reaction → Option Reaction × W → Bool × W
  compare_with next correct (none, w) = (false, w)
  compare_with next correct (some sig, w) = elim (equal sig correct) [
    | true ↦ (false, w)
    | false ↦ next w
  ]

  -- The loop over the vectors, which passes over the correct one.
  unfoldable pub compare_all : List RobotVectorKind → Reaction → W → Bool × W
  compare_all [] correct w = (true, w)
  compare_all (kind ∷ kinds) correct w = elim (is_correct kind) [
    | true ↦ compare_all kinds correct w
    | false ↦ compare_with (compare_all kinds correct) correct (stable exchange kind 2 w)
  ]

  unfoldable pub with_baseline : Option Reaction × W → Bool × W
  with_baseline (none, w) = (false, w)
  with_baseline (some correct, w) = compare_all all_robot_vectors correct w

  unfoldable pub with_key : Bool × W → Bool × W
  with_key (false, w) = (false, w)
  with_key (true, w) = with_baseline (stable exchange vec_correct 2 w)

  -- `ProbeROBOT`.
  unfoldable pub probe_robot : W → Bool × W
  probe_robot w = with_key (discover w)

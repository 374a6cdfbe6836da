-- ===== src/Cbc/Flipped.antt =====
-- internal/handshake/cbc.go: a MAC whose last byte is flipped is another one of the same length.
use Prim.Native.Nat.{bit_xor}
use tlsscan.Base.{
  ℕ, zero, suc, ◌+◌, ◌%◌, ◌<◌, Bool, true, false, ◌&&◌, [], ◌∷◌, length, ◌==◌, if◌then◌else◌, ◌≡◌,
  ◌≢◌, refl, ap, arith, inl, inr, Bool-cases,
}
use tlsscan.Wire.{Bytes}
use tlsscan.Cbc.{flip_last, pad_len}

-- Every byte is below 256.
abbrev pub AreBytes : Bytes → Type 0
AreBytes [] = Unit
AreBytes (b ∷ bs) = (b < 256) × AreBytes bs

xor_ne : ℕ → Bool
xor_ne zero = true
xor_ne (suc n) = (if bit_xor n 0xff == n then false else true) && xor_ne n

xor_ne_sound : (n x : ℕ) → xor_ne n ≡ true → x < n → bit_xor x 0xff ≢ x
unfolding xor_ne
xor_ne_sound zero x h lt = absurd (omega arith)
xor_ne_sound (suc n) x h lt = elim (Bool-cases (x == n)) [
  | inl e ↦ λ q. ground arith
  | inr e ↦ xor_ne_sound n x (ground arith) (ground arith)
]

xor_ne_table : xor_ne 256 ≡ true
unfolding xor_ne
xor_ne_table = refl

abbrev head : Bytes → ℕ
head [] = 0
head (b ∷ bs) = b

abbrev tail : Bytes → Bytes
tail [] = []
tail (b ∷ bs) = bs

pub pad_len_aligned : (n : ℕ) → ((n + (pad_len 16 n + 1)) % 16 ≡ 0) × (pad_len 16 n < 16)
pad_len_aligned n = ground arith

pub flip_last-ne : (m : Bytes) → AreBytes m → 0 < length m → flip_last m ≢ m
unfolding flip_last
flip_last-ne [] b h = absurd (omega arith)
flip_last-ne (x ∷ []) b h = λ e. xor_ne_sound 256 x xor_ne_table b.0 (ap head e)
flip_last-ne (x ∷ y ∷ m) b h = λ e. flip_last-ne (y ∷ m) b.1 (omega arith) (ap tail e)

pub length-flip_last : (m : Bytes) → length (flip_last m) ≡ length m
unfolding flip_last
length-flip_last [] = refl
length-flip_last (x ∷ []) = refl
length-flip_last (x ∷ y ∷ m) = ap suc (length-flip_last (y ∷ m))

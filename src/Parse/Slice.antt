-- ===== src/Parse/Slice.antt =====
-- Reads from a slice of bytes, with the panic of an index out of range as `none`.
use tlsscan.Base.{
  ℕ, zero, suc, ◌+◌, ◌-◌, ◌≤◌, ◌<◌, [], ◌∷◌, Option, none, some, length, take, drop, get_elem?,
  ◌&&◌, leb, if◌then◌else◌, ◌≡◌, ◌∙◌, refl, arith,
}
use mathlib.Core.Bool.{Bool}
use native.Mathlib.Nat.{zero-add, suc-add}
use tlsscan.Wire.{Bytes, get16, get24}

infixl 5 ◌>>=◌
abbrev pub ◌>>=◌ {ℓ κ} : {A : Type ℓ} {B : Type κ} → Option A → (A → Option B) → Option B
none >>= f = none
some a >>= f = f a

-- `msg[i]`.
abbrev pub index : Bytes → ℕ → Option ℕ
index = get_elem?

-- `msg[lo:hi]`.
unfoldable pub slice : Bytes → ℕ → ℕ → Option Bytes
slice msg lo hi =
    if leb lo hi && leb hi (length msg) then some (take (hi - lo) (drop lo msg)) else none

-- `binary.BigEndian.Uint16(msg[p : p+2])`, and three bytes in the same order.
unfoldable pub read16 : Bytes → ℕ → Option ℕ
read16 msg p = do a ← index msg p; b ← index msg (p + 1); some (get16 a b)

unfoldable pub read24 : Bytes → ℕ → Option ℕ
read24 msg p = do a ← index msg p; b ← index msg (p + 1); c ← index msg (p + 2); some (get24 a b c)

pub index-some : (msg : Bytes) (i : ℕ) → i < length msg → (a : ℕ) × (index msg i ≡ some a)
index-some [] i h = absurd (omega arith)
index-some (x ∷ xs) zero h = (x, refl)
index-some (x ∷ xs) (suc i) h = index-some xs i (omega arith)

pub read16-some : (msg : Bytes) (p : ℕ) → p + 2 ≤ length msg → (a : ℕ) × (read16 msg p ≡ some a)
unfolding read16
read16-some msg p h =
    let (a, ea) = index-some msg p (omega arith) in
    let (b, eb) = index-some msg (p + 1) (omega arith) in (get16 a b, rw ea (rw eb))

pub read24-some : (msg : Bytes) (p : ℕ) → p + 3 ≤ length msg → (a : ℕ) × (read24 msg p ≡ some a)
unfolding read24
read24-some msg p h =
    let (a, ea) = index-some msg p (omega arith) in
    let (b, eb) = index-some msg (p + 1) (omega arith) in
    let (c, ec) = index-some msg (p + 2) (omega arith) in (get24 a b c, rw ea (rw eb (rw ec)))

pub slice-some :
    (msg : Bytes) (lo hi : ℕ)
    → lo ≤ hi
    → hi ≤ length msg
    → slice msg lo hi ≡ some (take (hi - lo) (drop lo msg))
unfolding slice
slice-some msg lo hi h k =
    let a : leb lo hi ≡ Bool.true = ground arith in
    let b : leb hi (length msg) ≡ Bool.true = ground arith in rw (a, b)

-- Reading at `p` is reading at the front of what is left from `p` on.
pub index-drop : (msg : Bytes) (p i : ℕ) → index msg (p + i) ≡ index (drop p msg) i
index-drop msg zero i = rw zero-add
index-drop [] (suc p) i = refl
index-drop (x ∷ xs) (suc p) i = rw suc-add (index-drop xs p i)

pub drop-drop : (msg : Bytes) (p q : ℕ) → drop (p + q) msg ≡ drop q (drop p msg)
drop-drop msg zero q = rw zero-add
drop-drop [] (suc p) zero = rw suc-add
drop-drop [] (suc p) (suc q) = rw suc-add
drop-drop (x ∷ xs) (suc p) q = rw suc-add (drop-drop xs p q)

-- What stands at `p` and behind it, read through the bytes that are left from `p` on.
pub index_at :
    (msg : Bytes) (p : ℕ) {a : ℕ} {rest : Bytes} → drop p msg ≡ a ∷ rest → index msg p ≡ some a
index_at msg p e = let z : p + 0 ≡ p = omega arith in rw z at (index-drop msg p 0) ∙ rw e

pub read16_at :
    (msg : Bytes) (p : ℕ) {a b : ℕ} {rest : Bytes}
    → drop p msg ≡ a ∷ b ∷ rest
    → read16 msg p ≡ some (get16 a b)
unfolding read16
read16_at msg p e = rw (index_at msg p e) (rw (index-drop msg p 1, e))

pub drop_at :
    (msg : Bytes) (p q : ℕ) {rest : Bytes} → drop p msg ≡ rest → drop (p + q) msg ≡ drop q rest
drop_at msg p q e = drop-drop msg p q ∙ rw e

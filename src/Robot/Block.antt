-- ===== src/Robot/Block.antt =====
-- internal/handshake/robot.go: how `buildPKCS1Vector` fills in a block.
use tlsscan.Base.{
  ℕ, zero, suc, ◌+◌, ◌-◌, ◌≤◌, true, [], ◌∷◌, ◌++◌, some, length, drop, replicate, leb, ◌≡◌, ◌∙◌,
  refl, sym, arith, length-append, length-replicate, length-drop, take-append, append-nil,
  append_assoc, take_all, drop_all,
}
use native.Mathlib.Nat.{le_refl}
use tlsscan.Wire.{Bytes}
use tlsscan.Robot.{◌>>=◌, set_at, fill, copy_at, frame}

pub set_at-append :
    (xs : Bytes) (v b : ℕ) (bs : Bytes) (i : ℕ)
    → i ≡ length xs
    → set_at i v (xs ++ b ∷ bs) ≡ some (xs ++ v ∷ bs)
unfolding set_at
set_at-append [] v b bs zero h = refl
set_at-append [] v b bs (suc i) h = absurd (omega arith)
set_at-append (x ∷ xs) v b bs zero h = absurd (omega arith)
set_at-append (x ∷ xs) v b bs (suc i) h = rw (set_at-append xs v b bs i (omega arith))

copy_at-append :
    (xs src ys : Bytes) (i : ℕ)
    → i ≡ length xs
    → length src ≡ length ys
    → copy_at i src (xs ++ ys) ≡ some (xs ++ src)
unfolding copy_at
copy_at-append xs src ys i h k =
    let len = length-append xs ys in
    let e : length (xs ++ ys) - i ≡ length src = omega arith in
    let fits : leb i (length (xs ++ ys)) ≡ true = ground arith in
    let gone : drop (i + length src) (xs ++ ys) ≡ [] =
      drop_all (i + length src) (xs ++ ys) (omega arith) in
    rw (
      fits,
      e,
      gone,
      take-append i xs ys h,
      take_all (length src) src (le_refl (length src)),
      append-nil,
    )

fill_lem :
    (a b ps : ℕ) (t : Bytes)
    → ps ≤ length t
    → fill 2 (suc (suc ps)) (a ∷ b ∷ t) ≡ some (a ∷ b ∷ (replicate ps 0xff ++ drop ps t))
unfolding fill
fill_lem a b ps t h =
    let lo : leb 2 (suc (suc ps)) ≡ true = ground arith in
    let hi : leb (suc (suc ps)) (suc (suc (length t))) ≡ true = ground arith in
    let n : suc (suc ps) - 2 ≡ ps = omega arith in rw (lo, hi, n)

after_fill :
    (a b ps : ℕ) (u src : Bytes)
    → length u ≡ suc (length src)
    → (set_at (suc (suc ps)) 0x00 (a ∷ b ∷ (replicate ps 0xff ++ u)) >>= λ c.
        copy_at (suc (suc (suc ps))) src c)
      ≡ some (a ∷ b ∷ (replicate ps 0xff ++ 0x00 ∷ src))
after_fill a b ps [] src h = absurd (omega arith)
after_fill a b ps (z ∷ zs) src h =
    let xs : Bytes = a ∷ b ∷ replicate ps 0xff in
    let n = length-replicate {A = ℕ} ps 0xff in
    let m = length-append {A = ℕ} xs (0x00 ∷ []) in
    let split : xs ++ 0x00 ∷ zs ≡ (xs ++ 0x00 ∷ []) ++ zs = sym (append_assoc xs (0x00 ∷ []) zs) in
    rw (set_at-append xs 0x00 z zs (suc (suc ps)) (omega arith), split)
      (copy_at-append (xs ++ 0x00 ∷ []) src zs (suc (suc (suc ps))) (omega arith) (omega arith)
        ∙ rw append_assoc)

pub frame_lem :
    (a b : ℕ) (t src : Bytes) (ps : ℕ)
    → length t ≡ ps + suc (length src)
    → frame ps src (a ∷ b ∷ t) ≡ some (a ∷ b ∷ (replicate ps 0xff ++ 0x00 ∷ src))
unfolding frame
frame_lem a b t src ps h =
    rw (fill_lem a b ps t (omega arith))
      (after_fill a b ps (drop ps t) src (omega (arith, length-drop ps t)))

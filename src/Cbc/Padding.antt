-- ===== src/Cbc/Padding.antt =====
-- What the other side makes of a decrypted record, after RFC 5246, section 6.2.3.2: the last byte
-- `p` counts the padding, all of the last `p + 1` bytes must equal it, and before them stands the
-- MAC of the content. This is the description that the crafted records are measured against.
use tlsscan.Base.{
  ℕ, zero, suc, ◌+◌, ◌-◌, Bool, true, false, ◌&&◌, [], ◌∷◌, ◌++◌, Option, none, some, length, take,
  drop, replicate, leb, ◌==◌, if◌then◌else◌, ◌≡◌, ◌≢◌, ◌∙◌, refl, ap, arith, append_assoc,
  length-append, length-replicate, take-append, drop-append,
}
use tlsscan.Wire.{Bytes}

abbrev last_byte : ℕ → Bytes → ℕ
last_byte d [] = d
last_byte d (b ∷ bs) = last_byte b bs

-- Every byte is `p`.
abbrev all_eq : ℕ → Bytes → Bool
all_eq p [] = true
all_eq p (b ∷ bs) = b == p && all_eq p bs

abbrev pub equal : Bytes → Bytes → Bool
equal [] [] = true
equal (x ∷ xs) (y ∷ ys) = x == y && equal xs ys
equal _ _ = false

-- The record without `p + 1` bytes of padding, or `none` if those are not all there.
strip : ℕ → Bytes → Option Bytes
strip p xs =
    let keep = length xs - (p + 1) in
    if leb (p + 1) (length xs) && all_eq p (drop keep xs) then some (take keep xs) else none

unpad : Bytes → Option Bytes
unpad [] = none
unpad (b ∷ bs) = strip (last_byte b bs) (b ∷ bs)

pub data Reception : Type 0 where
  bad_padding bad_mac : Reception
  accepted : Bytes → Reception

-- The MAC is the last `mac_len` bytes; `mac_of` recomputes it from the content before them.
check_mac : (Bytes → Bytes) → ℕ → Option Bytes → Reception
check_mac mac_of mac_len none = bad_padding
check_mac mac_of mac_len (some xs) =
    let keep = length xs - mac_len in
    if leb mac_len (length xs) && equal (mac_of (take keep xs)) (drop keep xs)
    then accepted (take keep xs)
    else bad_mac

unfoldable pub receive : (Bytes → Bytes) → ℕ → Bytes → Reception
unfolding check_mac unpad strip
receive mac_of mac_len plain = check_mac mac_of mac_len (unpad plain)

last_byte-replicate : (d p n : ℕ) → last_byte d (replicate (suc n) p) ≡ p
last_byte-replicate d p zero = refl
last_byte-replicate d p (suc n) = last_byte-replicate p p n

last_byte-append : (d p n : ℕ) (xs : Bytes) → last_byte d (xs ++ replicate (suc n) p) ≡ p
last_byte-append d p n [] = last_byte-replicate d p n
last_byte-append d p n (x ∷ xs) = last_byte-append x p n xs

all_eq-replicate : (p n : ℕ) → all_eq p (replicate n p) ≡ true
all_eq-replicate p zero = refl
all_eq-replicate p (suc n) = ground (arith, all_eq-replicate p n)

pub equal_refl : (xs : Bytes) → equal xs xs ≡ true
equal_refl [] = refl
equal_refl (x ∷ xs) = ground (arith, equal_refl xs)

pub equal-eq : (xs ys : Bytes) → equal xs ys ≡ true → xs ≡ ys
equal-eq [] [] h = refl
equal-eq [] (y ∷ ys) h = cc
equal-eq (x ∷ xs) [] h = cc
equal-eq (x ∷ xs) (y ∷ ys) h = ground (arith, equal-eq xs ys)

strip-append : (p : ℕ) (xs : Bytes) → strip p (xs ++ replicate (suc p) p) ≡ some xs
unfolding strip
strip-append p xs =
    let pad = replicate (suc p) p in
    let len = length-append xs pad in
    let n : length (xs ++ pad) ≡ length xs + suc p =
      omega (arith, len, length-replicate (suc p) p) in
    let keep : length xs + suc p - (p + 1) ≡ length xs = omega arith in
    let fits : leb (p + 1) (length xs + suc p) ≡ true = ground arith in
    rw n (
      rw (keep, fits, drop-append (length xs) xs pad refl, take-append (length xs) xs pad refl)
        (rw (all_eq-replicate p (suc p))))

-- A record that ends in at least one byte `p` is stripped by `p`.
unpad-strip :
    (p n : ℕ) (xs : Bytes) → unpad (xs ++ replicate (suc n) p) ≡ strip p (xs ++ replicate (suc n) p)
unfolding unpad
unpad-strip p n [] = rw (last_byte-replicate p p n)
unpad-strip p n (x ∷ xs) = rw (last_byte-append x p n xs)

-- Valid padding is taken off.
unpad-append : (p : ℕ) (xs : Bytes) → unpad (xs ++ replicate (suc p) p) ≡ some xs
unpad-append p xs = unpad-strip p p xs ∙ strip-append p xs

replicate-suc : (n p : ℕ) → replicate (suc n) p ≡ replicate n p ++ p ∷ []
replicate-suc zero p = refl
replicate-suc (suc n) p = ap (◌∷◌ p) (replicate-suc n p)

-- Of trailing zero bytes only the last is taken off.
unpad_zeros : (n : ℕ) (xs : Bytes) → unpad (xs ++ replicate (suc n) 0) ≡ some (xs ++ replicate n 0)
unpad_zeros n xs =
    rw (replicate-suc n 0, ← append_assoc xs (replicate n 0) (0 ∷ []))
      (unpad-append 0 (xs ++ replicate n 0))

-- A MAC of the right length behind the content is compared with the content's own.
check_mac-append :
    (mac_of : Bytes → Bytes) (content m : Bytes)
    → check_mac mac_of (length m) (some (content ++ m))
      ≡ (if equal (mac_of content) m then accepted content else bad_mac)
unfolding check_mac
check_mac-append mac_of content m =
    let len = length-append content m in
    let keep : length content + length m - length m ≡ length content = omega arith in
    let fits : leb (length m) (length content + length m) ≡ true = ground arith in
    rw len (
      rw (
        keep,
        fits,
        drop-append (length content) content m refl,
        take-append (length content) content m refl,
      ))

-- A receiver of content, a MAC and valid padding compares the MAC.
pub receive_padded :
    (mac_of : Bytes → Bytes) (p : ℕ) (content m : Bytes)
    → receive mac_of (length m) ((content ++ m) ++ replicate (suc p) p)
      ≡ (if equal (mac_of content) m then accepted content else bad_mac)
unfolding receive
receive_padded mac_of p content m =
    rw (unpad-append p (content ++ m)) (check_mac-append mac_of content m)

not-bad_padding :
    (mac_of : Bytes → Bytes) (mac_len : ℕ) (xs : Bytes)
    → check_mac mac_of mac_len (some xs) ≢ bad_padding
unfolding check_mac
not-bad_padding mac_of mac_len xs = ground arith

-- Bytes that end in at least one 0 are never refused for their padding.
pub receive_zeros :
    (mac_of : Bytes → Bytes) (mac_len n : ℕ) (xs : Bytes)
    → receive mac_of mac_len (xs ++ replicate (suc n) 0) ≢ bad_padding
unfolding receive
receive_zeros mac_of mac_len n xs =
    rw (unpad_zeros n xs) (not-bad_padding mac_of mac_len (xs ++ replicate n 0))

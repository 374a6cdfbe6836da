-- ===== src/Scan/Ranges.antt =====
-- pkg/tlsscan/guard.go: the IPv4 ranges that `isBlockedIP` refuses.
use Prim.Native.Nat.{bit_and}
use tlsscan.Base.{
  ℕ, zero, suc, ◌+◌, ◌*◌, ◌/◌, ◌^◌, ◌<◌, Bool, true, false, ◌&&◌, ◌||◌, List, [], ◌∷◌, ◌==◌,
  if◌then◌else◌, ◌≡◌, refl, arith, inl, inr, Bool-cases,
}
use tlsscan.Scan.Address.{same_bytes, mapped, to4, blocked4, is_blocked_ip}

-- A range: its first address, and the number of bits that vary in it.
abbrev pub Range : Type 0
Range = ℕ × ℕ

-- The number of an address.
abbrev pub address : ℕ → ℕ → ℕ → ℕ → ℕ
address a b c d = a * 16777216 + b * 65536 + c * 256 + d

-- Loopback, the three private ranges, link-local, link-local multicast, unspecified, and
-- carrier-grade NAT. The endpoint of cloud metadata, 169.254.169.254, is link-local.
abbrev pub blocked_ranges : List Range
blocked_ranges =
    (address 127 0 0 0, 24)
    ∷ (address 10 0 0 0, 24)
    ∷ (address 172 16 0 0, 20)
    ∷ (address 192 168 0 0, 16)
    ∷ (address 169 254 0 0, 16)
    ∷ (address 224 0 0 0, 8)
    ∷ (address 0 0 0 0, 0)
    ∷ (address 100 64 0 0, 22)
    ∷ []

abbrev pub lies_in : ℕ → Range → Bool
lies_in n (first, bits) = n / 2 ^ bits == first / 2 ^ bits

abbrev pub lies_in_any : ℕ → List Range → Bool
lies_in_any n [] = false
lies_in_any n (r ∷ rs) = lies_in n r || lies_in_any n rs

-- The masks of a byte are divisions.
masks_agree : ℕ → Bool
masks_agree zero = true
masks_agree (suc n) =
    (if (bit_and n 0xf0 == 16) then (n / 16 == 1) else (if n / 16 == 1 then false else true))
    && ((if (bit_and n 0xc0 == 64) then (n / 64 == 1) else (if n / 64 == 1 then false else true))
        && masks_agree n)

masks_table : masks_agree 256 ≡ true
unfolding masks_agree
masks_table = refl

masks_sound :
    (n b : ℕ)
    → masks_agree n ≡ true
    → b < n
    → ((bit_and b 0xf0 == 16) ≡ (b / 16 == 1)) × ((bit_and b 0xc0 == 64) ≡ (b / 64 == 1))
unfolding masks_agree
masks_sound zero b h lt = absurd (omega arith)
masks_sound (suc n) b h lt = elim (Bool-cases (b == n)) [
  | inl e ↦ let q : b ≡ n = ground arith in rw q (ground arith)
  | inr e ↦ masks_sound n b (ground arith) (ground arith)
]

module _ (a b c d : ℕ) (ha : a < 256) (hb : b < 256) (hc : c < 256) (hd : d < 256) where
  by_8 : (k : ℕ) → k < 256 → (address a b c d / 16777216 == k) ≡ (a == k)
  by_8 k h = ground arith

  by_12 : (address a b c d / 1048576 == 2753) ≡ ((a == 172) && (b / 16 == 1))
  by_12 = ground arith

  by_10 : (address a b c d / 4194304 == 401) ≡ ((a == 100) && (b / 64 == 1))
  by_10 = ground arith

  by_16 : (k l : ℕ) → l < 256 → (address a b c d / 65536 == k * 256 + l) ≡ ((a == k) && (b == l))
  by_16 k l h = ground arith

  by_24 : (address a b c d / 256 == 14680064) ≡ ((a == 224) && ((b == 0) && (c == 0)))
  by_24 = ground arith

  by_32 : (address a b c d / 1 == 0) ≡ same_bytes (a ∷ b ∷ c ∷ d ∷ []) (0 ∷ 0 ∷ 0 ∷ 0 ∷ [])
  by_32 = ground arith

  tests_agree : blocked4 (a ∷ b ∷ c ∷ d ∷ []) ≡ lies_in_any (address a b c d) blocked_ranges
  tests_agree =
      let (m, l) = masks_sound 256 b masks_table hb in
      rw
        (
          m,
          l,
          by_8 127 (omega arith),
          by_8 10 (omega arith),
          by_12,
          by_16 192 168 (omega arith),
          by_16 169 254 (omega arith),
          by_24,
          by_32,
          by_10,
        )
        (ground arith)

  -- For four bytes, `isBlockedIP` refuses the IPv4 address exactly if its number lies in one of
  -- the eight ranges, and the same holds of its IPv4-mapped form of 16 bytes.
  pub is_blocked_ip-lies_in_any :
      (is_blocked_ip (a ∷ b ∷ c ∷ d ∷ []) ≡ lies_in_any (address a b c d) blocked_ranges)
      × (is_blocked_ip (mapped (a ∷ b ∷ c ∷ d ∷ [])) ≡ lies_in_any (address a b c d) blocked_ranges)
  unfolding is_blocked_ip to4
  is_blocked_ip-lies_in_any = (tests_agree, tests_agree)

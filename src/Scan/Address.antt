-- ===== src/Scan/Address.antt =====
-- pkg/tlsscan/guard.go: `isBlockedIP`, with the methods of `net.IP` that it calls. An address is 4
-- or 16 bytes.
use Prim.Native.Nat.{bit_and}
use tlsscan.Base.{
  ℕ, Bool, true, false, ◌&&◌, ◌||◌, [], ◌∷◌, Option, none, some, ◌==◌, if◌then◌else◌,
}
use tlsscan.Wire.{Bytes}

-- `Equal` on two addresses of the same length.
abbrev pub same_bytes : Bytes → Bytes → Bool
same_bytes [] [] = true
same_bytes (a ∷ xs) (b ∷ ys) = (a == b) && same_bytes xs ys
same_bytes _ _ = false

abbrev pub mapped : Bytes → Bytes
mapped ip4 = 0 ∷ 0 ∷ 0 ∷ 0 ∷ 0 ∷ 0 ∷ 0 ∷ 0 ∷ 0 ∷ 0 ∷ 0xff ∷ 0xff ∷ ip4

-- The last four bytes of an IPv4-mapped address.
abbrev pub unmapped : Bytes → Option Bytes
unmapped (a ∷ b ∷ c ∷ d ∷ e ∷ f ∷ g ∷ h ∷ i ∷ j ∷ k ∷ l ∷ w ∷ x ∷ y ∷ z ∷ []) =
    if same_bytes (a ∷ b ∷ c ∷ d ∷ e ∷ f ∷ g ∷ h ∷ i ∷ j ∷ k ∷ l ∷ []) (mapped [])
    then some (w ∷ x ∷ y ∷ z ∷ [])
    else none
unmapped _ = none

-- `To4`.
unfoldable pub to4 : Bytes → Option Bytes
to4 (a ∷ b ∷ c ∷ d ∷ []) = some (a ∷ b ∷ c ∷ d ∷ [])
to4 ip = unmapped ip

-- The first bytes, 0 where there are none.
abbrev at0 : Bytes → ℕ
at0 (a ∷ _) = a
at0 [] = 0

abbrev at1 : Bytes → ℕ
at1 (_ ∷ b ∷ _) = b
at1 _ = 0

abbrev at2 : Bytes → ℕ
at2 (_ ∷ _ ∷ c ∷ _) = c
at2 _ = 0

abbrev ipv6_loopback : Bytes
ipv6_loopback = 0 ∷ 0 ∷ 0 ∷ 0 ∷ 0 ∷ 0 ∷ 0 ∷ 0 ∷ 0 ∷ 0 ∷ 0 ∷ 0 ∷ 0 ∷ 0 ∷ 0 ∷ 1 ∷ []

abbrev ipv6_unspecified : Bytes
ipv6_unspecified = 0 ∷ 0 ∷ 0 ∷ 0 ∷ 0 ∷ 0 ∷ 0 ∷ 0 ∷ 0 ∷ 0 ∷ 0 ∷ 0 ∷ 0 ∷ 0 ∷ 0 ∷ 0 ∷ []

-- The tests of an IPv4 address, in the order of `isBlockedIP`: `IsLoopback`, `IsPrivate`,
-- `IsLinkLocalUnicast`, `IsLinkLocalMulticast`, `IsUnspecified`, the endpoint of cloud metadata, and
-- carrier-grade NAT.
abbrev pub blocked4 : Bytes → Bool
blocked4 ip =
    (at0 ip == 127)
    || ((at0 ip == 10)
        || ((at0 ip == 172) && (bit_and (at1 ip) 0xf0 == 16))
        || ((at0 ip == 192) && (at1 ip == 168)))
    || ((at0 ip == 169) && (at1 ip == 254))
    || ((at0 ip == 224) && ((at1 ip == 0) && (at2 ip == 0)))
    || same_bytes ip (0 ∷ 0 ∷ 0 ∷ 0 ∷ [])
    || same_bytes ip (169 ∷ 254 ∷ 169 ∷ 254 ∷ [])
    || ((at0 ip == 100) && (bit_and (at1 ip) 0xc0 == 64))

-- The same tests of any other address, of which the last two are never true.
abbrev pub blocked16 : Bytes → Bool
blocked16 ip =
    same_bytes ip ipv6_loopback
    || (bit_and (at0 ip) 0xfe == 0xfc)
    || ((at0 ip == 0xfe) && (bit_and (at1 ip) 0xc0 == 0x80))
    || ((at0 ip == 0xff) && (bit_and (at1 ip) 0x0f == 0x02))
    || same_bytes ip ipv6_unspecified

abbrev blocked_as : Bytes → Option Bytes → Bool
blocked_as ip (some ip4) = blocked4 ip4
blocked_as ip none = blocked16 ip

unfoldable pub is_blocked_ip : Bytes → Bool
is_blocked_ip ip = blocked_as ip (to4 ip)

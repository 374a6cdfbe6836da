-- ===== src/Rating/Score.antt =====
-- pkg/tlsscan/rating.go: the three component scores and the letter of a numeric score.
use tlsscan.Base.{
  ℕ, ◌+◌, ◌-◌, ◌*◌, ◌/◌, Bool, ◌&&◌, ◌||◌, List, length, ltb, leb, ◌==◌, if◌then◌else◌,
}
use tlsscan.Rating.Types.{
  Grade, KeyType, rsa, ecdsa, unknown, unset, Protocols, Certificate, CipherSummary,
  RatingBreakdown,
}

-- `len(l) > 0`
abbrev pub nonempty {ℓ} : {A : Type ℓ} → List A → Bool
nonempty l = ltb 0 (length l)

unfoldable pub protocol_score : Protocols → ℕ
protocol_score p =
    if p.ssl2 || p.ssl3
    then 20
    else if p.tls10 || p.tls11
    then 70
    else if p.tls13
    then 100
    else if p.tls12
    then 90
    else 0

rsa_score : ℕ → ℕ
rsa_score bits =
    if leb 4096 bits then 100 else if leb 2048 bits then 90 else if leb 1024 bits then 40 else 20

key_score : KeyType → ℕ → ℕ
unfolding rsa_score
key_score rsa bits = rsa_score bits
key_score ecdsa bits = if leb 256 bits then 100 else 60
key_score unknown bits = 0
key_score unset bits = 0

-- `score -= 20` and the test `score < 0` after it are the subtraction that stops at 0.
unfoldable pub key_exchange_score : Certificate → Bool → ℕ
unfolding key_score
key_exchange_score c fs =
    let score = key_score c.key_type c.key_bits in if fs then score else score - 20

unfoldable pub cipher_score : CipherSummary → ℕ
cipher_score c =
    if nonempty c.insecure
    then 20
    else if nonempty c.weak && (length c.strong == 0)
    then 50
    else if nonempty c.weak
    then 80
    else if nonempty c.strong
    then 100
    else 0

unfoldable pub numeric_to_grade : ℕ → Grade
numeric_to_grade n =
    if leb 95 n
    then Grade.a
    else if leb 80 n
    then Grade.a
    else if leb 65 n
    then Grade.b
    else if leb 50 n
    then Grade.c
    else if leb 35 n
    then Grade.d
    else if leb 20 n
    then Grade.e
    else Grade.f

-- The breakdown with which `rate` begins.
unfoldable pub breakdown : Protocols → Certificate → CipherSummary → Bool → RatingBreakdown
breakdown p cert cs fs =
    let proto = protocol_score p in
    let kx = key_exchange_score cert fs in
    let cipher = cipher_score cs in
    record {
      protocol_score = proto;
      key_exchange_score = kx;
      cipher_score = cipher;
      numeric = (proto * 30 + kx * 30 + cipher * 40) / 100;
    }

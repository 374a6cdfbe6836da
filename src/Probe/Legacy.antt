-- ===== src/Probe/Legacy.antt =====
-- The replies that the SSLv3, the fallback and the SSLv2 probe accept, as functions of the bytes that
-- arrive.
use Prim.Native.Nat.{bit_and}
use tlsscan.Base.{
  ℕ, ◌+◌, ◌*◌, Bool, false, not, ◌&&◌, ◌||◌, [], ◌∷◌, ltb, leb, ◌==◌, if◌then◌else◌, ◌≡◌, ◌∙◌, refl,
  arith,
}
use tlsscan.Wire.{Bytes, get16}
use tlsscan.Wire.Headers.{record_alert, record_handshake, version_ssl30}
use tlsscan.Net.{pure, read_full}
use tlsscan.Net.Stream.{
  Parsed, got, starved, refused, Parser, then_parse, Implements, bytes, header,
  read_full-Implements, pure-Implements, >>=-Implements,
}
use tlsscan.Probe.{
  alert_reply, handshake_server_hello, first_byte, second_byte, fallback_reply, ssl3_reply,
  ssl2_reply,
}
use tlsscan.Probe.Stream.{
  found, if-Implements, first_is, read_first-Implements, selects, after_header,
  after_header-Implements, select_parser, found-select,
}

-- The same in an SSLv3 record.
abbrev pub selects_ssl3 : Bytes → Bool
selects_ssl3 (t ∷ v ∷ w ∷ l ∷ m ∷ b ∷ rest) =
    t == record_handshake
    && (get16 v w == version_ssl30 && (leb 1 (get16 l m) && b == handshake_server_hello))
selects_ssl3 _ = false

abbrev pub ssl3_parser : ℕ × ℕ × ℕ → Parser Bool
ssl3_parser h =
    if h.0 == record_alert
    then got false
    else if not (h.0 == record_handshake) || not (h.1 == version_ssl30) || ltb h.2 1
    then got false
    else first_is handshake_server_hello

pub ssl3_reply-Implements : Implements ssl3_reply (after_header ssl3_parser)
unfolding ssl3_reply
ssl3_reply-Implements = after_header-Implements _ ssl3_parser (λ h.
    if-Implements (h.0 == record_alert) (pure false) _ (got false) _ (pure-Implements false) (
      if-Implements (not (h.0 == record_handshake) || not (h.1 == version_ssl30) || ltb h.2 1)
        (pure false) _ (got false) _ (pure-Implements false)
        (read_first-Implements handshake_server_hello)))

pub found-ssl3 : (s : Bytes) → found false (after_header ssl3_parser s) ≡ selects_ssl3 s
found-ssl3 [] = refl
found-ssl3 (t ∷ []) = refl
found-ssl3 (t ∷ v ∷ []) = refl
found-ssl3 (t ∷ v ∷ w ∷ []) = refl
found-ssl3 (t ∷ v ∷ w ∷ l ∷ []) = refl
found-ssl3 (t ∷ v ∷ w ∷ l ∷ m ∷ []) = ground arith
found-ssl3 (t ∷ v ∷ w ∷ l ∷ m ∷ b ∷ rest) = ground arith

abbrev pub alert_parser : ℕ → Parser Bool
alert_parser len =
    if leb 2 len
    then (λ s.
        then_parse (bytes 2 s)
          (λ a. if first_byte a == 0x02 && second_byte a == 0x56 then got false else got false))
    else got false

alert_reply-Implements : (len : ℕ) → Implements (alert_reply len) (alert_parser len)
unfolding alert_reply
alert_reply-Implements len =
    if-Implements (leb 2 len) _ (pure false) _ (got false)
      (>>=-Implements (read_full 2) (bytes 2) _
        (λ a. if first_byte a == 0x02 && second_byte a == 0x56 then got false else got false)
        (read_full-Implements 2)
        (λ a.
          if-Implements (first_byte a == 0x02 && second_byte a == 0x56) (pure false) (pure false)
            (got false) (got false) (pure-Implements false) (pure-Implements false)))
      (pure-Implements false)

abbrev pub fallback_parser : ℕ × ℕ × ℕ → Parser Bool
fallback_parser h =
    if h.0 == record_alert
    then alert_parser h.2
    else if h.0 == record_handshake && leb 1 h.2
    then first_is handshake_server_hello
    else got false

pub fallback_reply-Implements : Implements fallback_reply (after_header fallback_parser)
unfolding fallback_reply
fallback_reply-Implements = after_header-Implements _ fallback_parser (λ h.
    if-Implements (h.0 == record_alert) (alert_reply h.2) _ _ _ (alert_reply-Implements h.2) (
      if-Implements (h.0 == record_handshake && leb 1 h.2) _ (pure false) _ (got false)
        (read_first-Implements handshake_server_hello) (pure-Implements false)))

found-alert : (len : ℕ) (s : Bytes) → found false (alert_parser len s) ≡ false
found-alert len s = ground arith

found_type :
    (h : ℕ × ℕ × ℕ) (s : Bytes)
    → found false (fallback_parser h s) ≡ found false (select_parser h s)
found_type h s = ground (arith, found-alert h.2 s)

pub found-fallback : (s : Bytes) → found false (after_header fallback_parser s) ≡ selects s
found-fallback s = found_header s ∙ found-select s
  where
    found_parsed :
        (q : Parsed (ℕ × ℕ × ℕ))
        → found false (then_parse q fallback_parser) ≡ found false (then_parse q select_parser)
    found_parsed (got h rest) = found_type h rest
    found_parsed starved = refl
    found_parsed (refused e) = refl

    found_header :
        (s : Bytes)
        → found false (after_header fallback_parser s) ≡ found false (after_header select_parser s)
    found_header s = found_parsed (header s)

-- An SSLv2 record with a two-byte header, not empty, and a SERVER-HELLO at its start.
abbrev pub selects_ssl2 : Bytes → Bool
selects_ssl2 (a ∷ b ∷ m ∷ rest) =
    not (bit_and a 0x80 == 0) && (leb 1 (bit_and a 0x7f * 256 + b) && m == 0x04)
selects_ssl2 _ = false

abbrev pub ssl2_parser : Parser Bool
ssl2_parser s = then_parse (bytes 2 s) (λ h.
    if bit_and (first_byte h) 0x80 == 0
    then got false
    else if ltb (bit_and (first_byte h) 0x7f * 256 + second_byte h) 1
    then got false
    else first_is 0x04)

pub ssl2_reply-Implements : Implements ssl2_reply ssl2_parser
unfolding ssl2_reply
ssl2_reply-Implements = >>=-Implements (read_full 2) (bytes 2) _ _ (read_full-Implements 2) (λ h.
    if-Implements (bit_and (first_byte h) 0x80 == 0) (pure false) _ (got false) _
      (pure-Implements false)
      (if-Implements (ltb (bit_and (first_byte h) 0x7f * 256 + second_byte h) 1) (pure false) _
        (got false) _ (pure-Implements false) (read_first-Implements 0x04)))

pub found-ssl2 : (s : Bytes) → found false (ssl2_parser s) ≡ selects_ssl2 s
found-ssl2 [] = refl
found-ssl2 (a ∷ []) = refl
found-ssl2 (a ∷ b ∷ []) = ground arith
found-ssl2 (a ∷ b ∷ m ∷ rest) = ground arith

-- ===== src/Cbc/FalseAlarm.antt =====
-- internal/handshake/cbc_oracle.go: the probe against a server that leaks nothing.
use tlsscan.Base.{◌+◌, ◌%◌, true, false, ◌++◌, length, ◌≡◌, arith, length-append}
use tlsscan.Base.Text.{codes}
use tlsscan.Wire.{Bytes}
use tlsscan.Wire.Headers.{record_application_data}
use tlsscan.Reaction.{Reaction, equal}
use tlsscan.Cbc.{Crypto, CbcSession, align, compute_mac, mac_then_pad}
use tlsscan.Cbc.Padding.{Reception, bad_mac, accepted, receive}
use tlsscan.Cbc.Oracle.{CbcVector, vec_bad_mac, vec_bad_pad, manipulation, request, classify_cbc}
use tlsscan.Cbc.Stimuli.{IsSha1, receive-vec_bad_mac, receive-vec_bad_pad}

-- What the server makes of the record that `sendCrafted` sends for a vector in a session.
abbrev pub seen : Crypto → CbcSession → CbcVector → Bytes → Reception
seen crypto s vec content =
    receive (compute_mac crypto s.client_write_mac s.client_seq record_application_data) 20 (
      align s.params.iv_len (
        mac_then_pad crypto s record_application_data content (manipulation vec).0
          (manipulation vec).1))

length-request : (host : Bytes) → length (request host) ≡ length host + 45
unfolding request
length-request host = omega (
  arith,
  length-append (codes "GET / HTTP/1.1\r\nHost: ") (host ++ codes "\r\nConnection: close\r\n\r\n"),
  length-append host (codes "\r\nConnection: close\r\n\r\n"),
)

pub whole_blocks : (host : Bytes) → length host % 16 ≡ 15 → (length (request host) + 20) % 16 ≡ 0
whole_blocks host h = omega (arith, length-request host)

-- Take a host name of 15, 31, 47, … bytes, as `www.example.com`, AES blocks, digests of 20
-- bytes, and a server whose reaction to a record depends on what it decrypts alone and that
-- reacts to the request otherwise than to a bad MAC. From its reactions to the bad-MAC and the
-- bad-padding record of the probe, in any two sessions, and any reaction to the third record,
-- `classifyCBC` reports GOLDENDOODLE.
pub false_alarm :
    (crypto : Crypto) (sha1 : IsSha1 crypto) (mac_session pad_session : CbcSession) (host : Bytes)
    (react : Reception → Reaction) (zero_len : Reaction)
    → mac_session.params.iv_len ≡ 16
    → pad_session.params.iv_len ≡ 16
    → length host % 16 ≡ 15
    → equal (react bad_mac) (react (accepted (request host))) ≡ false
    → (classify_cbc
        (react (seen crypto mac_session vec_bad_mac (request host)))
        (react (seen crypto pad_session vec_bad_pad (request host)))
        zero_len).golden_doodle
      ≡ true
unfolding classify_cbc
false_alarm crypto sha1 ms ps host react zero_len am ap' h differ =
    let whole = whole_blocks host h in
    rw
      (
        receive-vec_bad_mac crypto sha1 ms record_application_data am (request host),
        receive-vec_bad_pad crypto sha1 ps record_application_data ap' (request host) whole,
      )
      (rw differ)

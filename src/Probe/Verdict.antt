-- ===== src/Probe/Verdict.antt =====
-- The verdicts of the one-reply probes of probes.go and legacy.go, for every peer.
use tlsscan.Base.{
  ℕ, ◌<◌, true, ◌++◌, length, length-append, ◌+◌, ◌&&◌, Bool, false, some, ◌≡◌, ◌∙◌, arith, [],
  if◌then◌else◌,
}
use tlsscan.Wire.{Bytes}
use tlsscan.Wire.Headers.{record_handshake, record_alert, framed, wrap_handshake}
use tlsscan.Wire.Hello.{client_hello_tls, client_hello_ssl3, client_hello_ssl2}
use tlsscan.Net.{Peer}
use tlsscan.Probe.{
  server_selects_offered, probe_fallback_scsv_missing, probe_ssl3, probe_ssl2, fallback_suites,
  select_reply, fallback_reply, ssl3_reply, ssl2_reply,
}
use tlsscan.Probe.Stream.{
  after_header, select_parser, accepted, answer, selects, ask-Implements, select_reply-Implements,
  found-select,
}
use tlsscan.Probe.Legacy.{
  fallback_parser, ssl3_parser, ssl2_parser, selects_ssl3, selects_ssl2, fallback_reply-Implements,
  found-fallback, ssl3_reply-Implements, found-ssl3, ssl2_reply-Implements, found-ssl2,
}

-- A verdict that is the value of a test on the answer, and false where nothing is accepted.
abbrev pub judged : Peer → Bytes → (Bytes → Bool) → Bool
judged p request test = accepted p request && test (answer p request)

if-and : (a b c : Bool) → b ≡ c → (if a then b else false) ≡ (a && c)
if-and a b c h = ground arith

-- `serverSelectsOffered` is true exactly if the peer takes the hello and the bytes of its answer,
-- however they are cut into packets, begin with a handshake record that is not empty and whose
-- first byte is the type of a ServerHello.
pub server_selects_offered_lem :
    (peer : Peer) (hello : Bytes)
    → server_selects_offered (some peer) hello ≡ judged peer hello selects
unfolding server_selects_offered
server_selects_offered_lem peer hello =
    ask-Implements false hello select_reply (after_header select_parser) peer
      select_reply-Implements
    ∙ if-and _ _ _ (found-select (answer peer hello))

-- `ProbeFallbackSCSVMissing` is true exactly if the peer takes the hello of that version and the
-- bytes of its answer, in any packets, begin with a handshake record that is not empty and whose
-- first byte is the type of a ServerHello.
pub probe_fallback_scsv_missing_lem :
    (peer : Peer) (version : ℕ)
    → probe_fallback_scsv_missing (some peer) version
      ≡ judged peer (client_hello_tls version version fallback_suites []) selects
unfolding probe_fallback_scsv_missing
probe_fallback_scsv_missing_lem peer version =
    let hello = client_hello_tls version version fallback_suites [] in
    ask-Implements false hello fallback_reply (after_header fallback_parser) peer
      fallback_reply-Implements
    ∙ if-and _ _ _ (found-fallback (answer peer hello))

-- `ProbeSSL3` is true exactly if the peer takes the hello and the bytes of its answer, in any
-- packets, begin with a handshake record of version 0x0300 that is not empty and whose first
-- byte is the type of a ServerHello.
pub probe_ssl3_lem :
    (peer : Peer) → probe_ssl3 (some peer) ≡ judged peer client_hello_ssl3 selects_ssl3
unfolding probe_ssl3
probe_ssl3_lem peer =
    ask-Implements false client_hello_ssl3 ssl3_reply (after_header ssl3_parser) peer
      ssl3_reply-Implements
    ∙ if-and _ _ _ (found-ssl3 (answer peer client_hello_ssl3))

-- `ProbeSSL2` is true exactly if the peer takes the hello and its answer begins with a two-byte
-- SSLv2 header, with the high bit set and a length that is not 0, and the type of a SERVER-HELLO.
pub probe_ssl2_lem :
    (peer : Peer) → probe_ssl2 (some peer) ≡ judged peer client_hello_ssl2 selects_ssl2
unfolding probe_ssl2
probe_ssl2_lem peer =
    ask-Implements false client_hello_ssl2 ssl2_reply ssl2_parser peer ssl2_reply-Implements
    ∙ if-and _ _ _ (found-ssl2 (answer peer client_hello_ssl2))

-- Each of the four probes that judge one reply is true exactly if the peer takes its hello and the
-- bytes of the answer, however they are cut into packets, pass a test on their own:
-- `serverSelectsOffered` and `ProbeFallbackSCSVMissing` if they begin with a handshake record that
-- is not empty and whose first byte is the type of a ServerHello, `ProbeSSL3` if that record has
-- the version 0x0300 too, and `ProbeSSL2` if they begin with a two-byte SSLv2 header, with the high
-- bit set and a length that is not 0, and the type of a SERVER-HELLO.
pub one_reply_lem :
    (peer : Peer) (hello : Bytes) (version : ℕ)
    → (server_selects_offered (some peer) hello ≡ judged peer hello selects)
      × (probe_fallback_scsv_missing (some peer) version
          ≡ judged peer (client_hello_tls version version fallback_suites []) selects)
      × (probe_ssl3 (some peer) ≡ judged peer client_hello_ssl3 selects_ssl3)
      × (probe_ssl2 (some peer) ≡ judged peer client_hello_ssl2 selects_ssl2)
one_reply_lem peer hello version = (
  server_selects_offered_lem peer hello,
  probe_fallback_scsv_missing_lem peer version,
  probe_ssl3_lem peer,
  probe_ssl2_lem peer,
)

-- Any ServerHello that fits one record is taken for one by the test of the probes, whatever
-- follows it; the same bytes in an alert record are not.
pub selects-framed :
    (version : ℕ) (body rest : Bytes)
    → length body + 4 < 65536
    → (selects (framed version record_handshake (wrap_handshake 0x02 body) ++ rest) ≡ true)
      × (selects (framed version record_alert (wrap_handshake 0x02 body) ++ rest) ≡ false)
unfolding wrap_handshake
selects-framed version body rest h = (ground (arith, length-append body rest), ground arith)

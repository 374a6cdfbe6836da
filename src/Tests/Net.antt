-- ===== src/Tests/Net.antt =====
-- legacy.go and probes.go against concrete peers.
use tlsscan.Base.{◌≤◌, ◌<◌, true, false, List, [], ◌∷◌, some, length, ◌≡◌}
use tlsscan.Base.Text.{codes}
use tlsscan.Wire.{Bytes}
use tlsscan.Wire.Hello.{client_hello_tls}
use tlsscan.Net.{Peer, Conn, ok, err, read_full}
use tlsscan.Net.Full.{flat, read_full_lem}
use tlsscan.Probe.{
  server_selects_offered, export_rsa_suites, probe_fallback_scsv_missing, probe_ssl3, probe_ssl2,
}
use tlsscan.Probe.Verdict.{one_reply_lem}

-- A peer that answers everything with the same packets and then stays silent.
abbrev answering : List Bytes → Peer
answering packets = record {
  reply = λ sent. packets;
  accepts = λ sent. true;
  fault = λ sent. record { timeout = true; message = codes "i/o timeout" };
}

-- A TLS 1.2 record with the start of a ServerHello, cut in the middle of the record header.
abbrev pub willing : Peer
willing =
    answering
      ((0x16 ∷ 0x03 ∷ []) ∷ (0x03 ∷ 0x00 ∷ 0x04 ∷ 0x02 ∷ 0x00 ∷ []) ∷ (0x00 ∷ 0x00 ∷ []) ∷ [])

-- A fatal `inappropriate_fallback`.
abbrev pub refusing : Peer
refusing = answering ((0x15 ∷ 0x03 ∷ 0x03 ∷ 0x00 ∷ 0x02 ∷ 0x02 ∷ 0x56 ∷ []) ∷ [])

abbrev ssl2_peer : Peer
ssl2_peer = answering ((0x80 ∷ 0x0b ∷ 0x04 ∷ []) ∷ [])

abbrev waiting : Conn
waiting = record { peer = willing; sent = []; inbound = (1 ∷ 2 ∷ []) ∷ (3 ∷ 4 ∷ 5 ∷ []) ∷ [] }

read_full_lem_example :
    (3 ≤ length (flat waiting.inbound)
      → read_full 3 waiting ≡ (ok (1 ∷ 2 ∷ 3 ∷ []), record waiting { inbound = (4 ∷ 5 ∷ []) ∷ [] }))
    × (length (flat waiting.inbound) < 3
        → read_full 3 waiting
          ≡ (err (waiting.peer.fault waiting.sent), record waiting { inbound = [] }))
read_full_lem_example = read_full_lem 3 waiting

-- The SSLv3 probe gets an answer of TLS 1.2, which is no evidence of SSLv3.
one_reply_lem_example :
    (server_selects_offered (some willing) (client_hello_tls 0x0301 0x0303 export_rsa_suites [])
      ≡ true)
    × (probe_fallback_scsv_missing (some willing) 0x0302 ≡ true)
    × (probe_ssl3 (some willing) ≡ false)
    × (probe_ssl2 (some willing) ≡ false)
one_reply_lem_example =
    one_reply_lem willing (client_hello_tls 0x0301 0x0303 export_rsa_suites []) 0x0302

-- ===== src/Session/Invariant.antt =====
-- internal/handshake/cbc.go: the sessions that `establishCBCSession` returns, and the crafted
-- records that are sent in them.
use mathlib.Core.Option.{some-injective, none-ne-some}
use tlsscan.Base.{◌+◌, ◌*◌, false, [], Option, none, some, length, drop, ◌≡◌, refl, arith}
use tlsscan.Wire.{Bytes}
use tlsscan.Wire.Hello.{cbc_client_hello}
use tlsscan.Wire.Headers.{record_handshake, wrap_tls12_record}
use tlsscan.Net.{◌>>=◌, Peer, Conn, Result, ok, err, dial}
use tlsscan.Cbc.{CbcSession}
use tlsscan.Cbc.Prf.{IsSha256, p_hash_sha256_lem, prf12}
use tlsscan.Session.{Library}
use tlsscan.Session.Flight.{Flight, read_flight}
use tlsscan.Session.Keys.{key_block, new_session}
use tlsscan.Session.Finish.{
  Outcome, rejected, accepted_finished, accepted_data, expect_server_finished,
}
use tlsscan.Session.Establish.{
  master_of, advanced, accepted, finished, fresh, client_key_exchange, change_cipher_spec,
  finished_record, finish, spec_sent, exchange_sent, complete, hello_sent, random_made, handshake,
  establish_cbc_session,
}
use tlsscan.Session.Ready.{IsCbcSuite, HasKeys, IsReady, new_session_lem}
use tlsscan.Session.Acceptance.{finished_parser, finished_loop-Implements}
use tlsscan.Session.Choice.{HasSuite, read_flight-Yields}
use tlsscan.Session.Yields.{
  send->>-Yields, Implements-Yields, need->>=-Yields, read->>=-Yields, Yields, Anything,
  pure-Yields, fail-Yields, >>=-Yields,
}

module _ (lib : Library) where
  -- The session of a flight has keys of the right lengths.
  fresh-HasKeys :
      (client_random : Bytes) (f : Flight) (c : Conn)
      → IsSha256 lib.hmac_sha256
      → IsCbcSuite f.params
      → HasKeys (fresh lib client_random f c)
  unfolding key_block prf12 new_session
  fresh-HasKeys client_random f c sha suite =
      let n = 2 * f.params.mac_len + 2 * f.params.key_len in
      let block =
        key_block lib.hmac_sha256 f.params (master_of lib client_random f) client_random
          f.server_random in
      let len : length block ≡ n =
        (p_hash_sha256_lem lib.hmac_sha256 sha n _ _ n (omega arith)).1 in
      let (a, b, d, e) = new_session_lem c f.params block len in
      record { suite = suite; client_mac = a; server_mac = b; client_key = d; server_key = e }

  -- The keys stay, and so does the client's number.
  abbrev Started : CbcSession → Type 0
  Started s = HasKeys s × (s.client_seq ≡ 1)

  accepted-Yields : (s : CbcSession) (o : Outcome) → Started s → Yields 0 Started (accepted s o)
  accepted-Yields s rejected h = fail-Yields 0 Started _
  accepted-Yields s accepted_finished (h, e) = pure-Yields Started _ (
    record {
      suite = h.suite;
      client_mac = h.client_mac;
      server_mac = h.server_mac;
      client_key = h.client_key;
      server_key = h.server_key;
    },
    e,
  )
  accepted-Yields s accepted_data h = pure-Yields Started s h

  expect_server_finished-Yields : Yields 0 Anything expect_server_finished
  unfolding expect_server_finished
  expect_server_finished-Yields =
      Implements-Yields expect_server_finished (finished_parser 6 false)
        (finished_loop-Implements 6 false)

  advanced-Started :
      (client_random : Bytes) (f : Flight) (c : Conn)
      → HasKeys (fresh lib client_random f c)
      → Started (advanced (fresh lib client_random f c))
  unfolding new_session
  advanced-Started client_random f c h = (
    record {
      suite = h.suite;
      client_mac = h.client_mac;
      server_mac = h.server_mac;
      client_key = h.client_key;
      server_key = h.server_key;
    },
    refl,
  )

  complete-Yields :
      (client_random : Bytes) (c₀ : Conn) (f : Flight)
      → IsSha256 lib.hmac_sha256
      → IsCbcSuite f.params
      → Yields 3 Started (complete lib client_random c₀ f)
  complete-Yields client_random c₀ f sha suite =
      let s = fresh lib client_random f c₀ in
      let h = advanced-Started client_random f c₀ (fresh-HasKeys client_random f c₀ sha suite) in
      send->>-Yields 2 Started (wrap_tls12_record record_handshake (client_key_exchange lib f))
        (exchange_sent lib client_random f s)
        (send->>-Yields 1 Started (change_cipher_spec lib) (spec_sent lib client_random f s) (
          need->>=-Yields 1 Started (finished_record lib client_random f s) (finish lib s) (λ fin _.
            send->>-Yields 0 Started fin (expect_server_finished >>= accepted (advanced s)) (
              read->>=-Yields 0 Started expect_server_finished (accepted (advanced s))
                expect_server_finished-Yields (λ o. accepted-Yields (advanced s) o h)))))

  handshake-Yields :
      (host : Bytes) (c₀ : Conn)
      → IsSha256 lib.hmac_sha256
      → Yields 4 Started (handshake lib host c₀)
  unfolding handshake
  handshake-Yields host c₀ sha =
      need->>=-Yields 4 Started (lib.crypto.random 32) (random_made lib host c₀) (λ r _.
        send->>-Yields 3 Started (cbc_client_hello host r)
          (hello_sent lib (cbc_client_hello host r) r c₀)
          (>>=-Yields 0 3 (HasSuite lib) Started
            (read_flight lib (drop 5 (cbc_client_hello host r))) (complete lib r c₀)
            (read_flight-Yields lib (drop 5 (cbc_client_hello host r)))
            (λ f suite. complete-Yields r c₀ f sha suite)))

  finished-IsReady :
      (r : Result CbcSession × Conn) (s : CbcSession)
      → ((a : CbcSession) (c : Conn) → r ≡ (ok a, c) → Started a × (length c.sent ≡ 4))
      → finished r ≡ some s
      → IsReady s
  finished-IsReady (err e, c) s h p = absurd (none-ne-some s p)
  finished-IsReady (ok a, c) s h p =
      let ((k, q), n) = h a c refl in
      let q' : a.client_seq ≡ 1 = q in
      let n' : length c.sent ≡ 4 = n in
      let ready : IsReady (record a { conn = c }) = record {
        has_keys = record {
          suite = k.suite;
          client_mac = k.client_mac;
          server_mac = k.server_mac;
          client_key = k.client_key;
          server_key = k.server_key;
        };
        counted = rw (q', n') refl;
      } in
      rw (some-injective _ _ p) at ready

  -- If the digests of HMAC-SHA256 have 32 bytes, then whatever the server does, a session that
  -- `establishCBCSession` returns has keys of the lengths of its suite, a suite of AES with
  -- SHA-1, and a sequence number that counts, up to 64 bits, the messages sent after the first
  -- three.
  pub establish_cbc_session-IsReady :
      (host : Bytes) (target : Option Peer) (s : CbcSession)
      → IsSha256 lib.hmac_sha256
      → establish_cbc_session lib host target ≡ some s
      → IsReady s
  unfolding establish_cbc_session dial
  establish_cbc_session-IsReady host none s sha e = absurd (none-ne-some s e)
  establish_cbc_session-IsReady host (some peer) s sha e =
      let c₀ : Conn = record { peer = peer; sent = []; inbound = [] } in
      finished-IsReady (handshake lib host c₀ c₀) s (λ a c p. handshake-Yields host c₀ sha c₀ a c p)
        e

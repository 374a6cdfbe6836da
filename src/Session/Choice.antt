-- ===== src/Session/Choice.antt =====
-- internal/handshake/cbc.go: the reading of the server's flight writes nothing, and ends with a suite
-- that the client knows.
use tlsscan.Base.{ℕ, zero, suc, [], ◌++◌, Option, ◌==◌}
use tlsscan.Wire.{Bytes}
use tlsscan.Net.{◌>>=◌}
use tlsscan.Cbc.{CbcCipherParams, params_for_suite}
use tlsscan.Session.{parsed, Library, need}
use tlsscan.Session.Reader.{Next, next}
use tlsscan.Session.Flight.{
  rsa_secret, ecdhe_secret, point_known, ske_known, suite_chosen, hello_known,
  handshake_server_key_exchange, cert_known, exchanged, handshake_certificate,
  handshake_server_hello_done, agreed, params_known, Flight, skipped, skip_loop, skip_to_done,
  ske_read, ecdhe_exchange, rsa_exchange, exchange, flight_done, exchange_done, cert_read,
  hello_read, read_flight,
}
use tlsscan.Session.Ready.{IsCbcSuite, params_for_suite-IsCbcSuite, next-Yields}
use tlsscan.Parse.{parse_server_hello_suite, parse_ecdhe_server_key_exchange, parse_leaf_rsa_key}
use tlsscan.Probe.{handshake_server_hello}
use tlsscan.Session.Yields.{
  need->>=-Yields, need_true->>-Yields, read->>=-Yields, Yields, Anything, pure-Yields, fail-Yields,
  if-Yields,
}

module _ (lib : Library) where
  skip_loop-Yields :
      (fuel : ℕ) (transcript buf : Bytes) → Yields 0 Anything (skip_loop lib fuel transcript buf)
  unfolding skip_loop
  skip_loop-Yields zero transcript buf = fail-Yields 0 Anything _
  skip_loop-Yields (suc fuel) transcript buf =
      read->>=-Yields 0 Anything (next buf) (skipped (skip_loop lib fuel) transcript)
        (next-Yields buf)
        (λ n.
          if-Yields 0 Anything (n.kind == handshake_server_hello_done) _ _
            (pure-Yields Anything (transcript ++ n.msg) tt)
            (skip_loop-Yields fuel (transcript ++ n.msg) n.buf))

  skip_to_done-Yields :
      (transcript buf : Bytes) → Yields 0 Anything (skip_to_done lib transcript buf)
  unfolding skip_to_done
  skip_to_done-Yields transcript buf c = skip_loop-Yields _ transcript buf c

  agreed-Yields :
      (transcript buf : Bytes) (o : Option (Bytes × Bytes))
      → Yields 0 Anything (need o >>= agreed lib transcript buf)
  agreed-Yields transcript buf o =
      need->>=-Yields 0 Anything o (agreed lib transcript buf)
        (λ secret _. pure-Yields Anything (exchanged lib transcript buf secret) tt)

  exchange-Yields :
      (params : CbcCipherParams) (transcript : Bytes) (cert : Next)
      → Yields 0 Anything (exchange lib params transcript cert)
  unfolding rsa_exchange ecdhe_exchange
  exchange-Yields params transcript cert =
      let tr = transcript ++ cert.msg in
      if-Yields 0 Anything params.ecdhe (ecdhe_exchange lib tr cert.buf)
        (rsa_exchange lib (parsed (parse_leaf_rsa_key lib.rsa_key cert.msg)) tr cert.buf)
        (read->>=-Yields 0 Anything (next cert.buf) (ske_read lib tr) (next-Yields cert.buf) (λ ske.
          need_true->>-Yields 0 Anything (ske.kind == handshake_server_key_exchange)
            (ske_known lib tr ske)
            (need->>=-Yields 0 Anything (parsed (parse_ecdhe_server_key_exchange ske.msg))
              (point_known lib tr ske)
              (λ point _. agreed-Yields (tr ++ ske.msg) ske.buf (ecdhe_secret lib point)))))
        (agreed-Yields tr cert.buf
          (rsa_secret lib (parsed (parse_leaf_rsa_key lib.rsa_key cert.msg))))

  abbrev pub HasSuite : Flight → Type 0
  HasSuite f = IsCbcSuite f.params

  params_known-Yields :
      (transcript : Bytes) (sh : Next) (server_random : Bytes) (params : CbcCipherParams)
      → IsCbcSuite params
      → Yields 0 HasSuite (params_known lib transcript sh server_random params)
  params_known-Yields transcript sh server_random params suite =
      let tr = transcript ++ sh.msg in
      read->>=-Yields 0 HasSuite (next sh.buf) (cert_read lib params server_random tr)
        (next-Yields sh.buf)
        (λ cert.
          need_true->>-Yields 0 HasSuite (cert.kind == handshake_certificate)
            (cert_known lib params server_random tr cert)
            (read->>=-Yields 0 HasSuite (exchange lib params tr cert)
              (exchange_done lib params server_random) (exchange-Yields params tr cert)
              (λ kx.
                read->>=-Yields 0 HasSuite (skip_to_done lib kx.transcript kx.buf)
                  (flight_done lib params server_random (kx.premaster, kx.body))
                  (skip_to_done-Yields kx.transcript kx.buf)
                  (λ whole. pure-Yields HasSuite _ suite))))

  pub read_flight-Yields : (transcript : Bytes) → Yields 0 HasSuite (read_flight lib transcript)
  unfolding read_flight
  read_flight-Yields transcript =
      read->>=-Yields 0 HasSuite (next []) (hello_read lib transcript) (next-Yields []) (λ sh.
        need_true->>-Yields 0 HasSuite (sh.kind == handshake_server_hello)
          (hello_known lib transcript sh)
          (need->>=-Yields 0 HasSuite (parsed (parse_server_hello_suite sh.msg))
            (suite_chosen lib transcript sh)
            (λ chosen _.
              need->>=-Yields 0 HasSuite (params_for_suite chosen.0)
                (params_known lib transcript sh chosen.1)
                (λ params e.
                  params_known-Yields transcript sh chosen.1 params
                    (params_for_suite-IsCbcSuite chosen.0 params e)))))

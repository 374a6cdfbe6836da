-- ===== src/Session/Flown.antt =====
-- internal/handshake/cbc.go: `establishCBCSession` from the ServerHello to the ServerHelloDone, on
-- the messages of a server's flight.
use tlsscan.Base.{ℕ, List, [], ◌∷◌, ◌++◌, some, ◌≡◌, ◌∙◌, ap}
use tlsscan.Wire.{Bytes}
use tlsscan.Net.{Conn, after}
use tlsscan.Net.Full.{flat}
use tlsscan.Parse.{parse_server_hello_suite}
use tlsscan.Cbc.{CbcCipherParams, params_for_suite}
use tlsscan.Probe.{first_byte, handshake_server_hello}
use tlsscan.Session.{Library, parsed}
use tlsscan.Session.Flight.{
  flight_done, Flight, handshake_certificate, exchange_done, cert_read, hello_read, read_flight,
}
use tlsscan.Session.Pending.{Pending, next-Pending}
use tlsscan.Session.Received.{Ended, GoOn, IsDone, Agreed, exchange-Agreed, skip_to_done-Pending}

module _ (lib : Library) (transcript : Bytes) where
  -- The messages of a flight: a ServerHello that chooses a suite of the client, a Certificate, the
  -- ServerKeyExchange of an ECDHE suite, others, and the ServerHelloDone; and what it means.
  pub data IsFlight : List Bytes → Flight → Type 0 where
    is_flight :
        (sh cert done : Bytes) (kx mid : List Bytes) {suite : ℕ} {server_random : Bytes}
        {params : CbcCipherParams} {premaster body : Bytes}
        → first_byte sh ≡ handshake_server_hello
        → parsed (parse_server_hello_suite sh) ≡ some (suite, server_random)
        → params_for_suite suite ≡ some params
        → first_byte cert ≡ handshake_certificate
        → Agreed lib params cert kx (premaster, body)
        → GoOn mid
        → IsDone done
        → IsFlight (sh ∷ cert ∷ (kx ++ (mid ++ done ∷ []))) (record {
          params = params;
          server_random = server_random;
          premaster = premaster;
          body = body;
          transcript = (((transcript ++ sh) ++ cert) ++ flat kx) ++ flat (mid ++ done ∷ []);
        })

  -- Where the messages of a flight wait on a connection, at most 262144 bytes cut into any
  -- records that are not empty and any packets, `establishCBCSession` reads the suite, the
  -- random, the secret and the transcript of that flight, and leaves exactly the bytes that
  -- stand behind its records.
  pub read_flight-IsFlight :
      (more : Bytes) (ms : List Bytes) (f : Flight) (c : Conn)
      → IsFlight ms f
      → Pending more ms [] c
      → Ended more f c (read_flight lib transcript c)
  unfolding read_flight
  read_flight-IsFlight more _ _ c
        (is_flight sh cert done kx mid {suite} {server_random} {params} {premaster} {body} h q s k
          agreed g d)
        p =
      let t = next-Pending more sh (cert ∷ (kx ++ (mid ++ done ∷ []))) [] c p in
      let c₁ = record c { inbound = t.packets } in
      let u = next-Pending more cert (kx ++ (mid ++ done ∷ [])) t.left c₁ t.pending in
      let c₂ = record c { inbound = u.packets } in
      let x =
        exchange-Agreed lib more params cert (transcript ++ sh) u.left kx (mid ++ done ∷ [])
          (premaster, body) c₂ agreed u.pending in
      let y =
        skip_to_done-Pending lib more done mid (((transcript ++ sh) ++ cert) ++ flat kx) x.left
          (record c { inbound = x.packets }) x.pending g d in
      record {
        packets = y.packets;
        returned =
            ap (λ r. after r (hello_read lib transcript)) t.took
            ∙ rw (h, q, s)
                (ap (λ r. after r (cert_read lib params server_random (transcript ++ sh))) u.took
                  ∙ rw k (
                      ap (λ r. after r (exchange_done lib params server_random)) x.returned
                      ∙ ap (λ r. after r (flight_done lib params server_random (premaster, body)))
                          y.returned));
        remaining = y.remaining;
      }

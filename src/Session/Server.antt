-- ===== src/Session/Server.antt =====
-- internal/handshake/cbc.go: `establishCBCSession` against a server that follows the handshake.
use tlsscan.Base.{
  append-nil, ℕ, ◌≤◌, true, false, List, [], ◌∷◌, ◌++◌, some, length, drop, ◌≡◌, ◌≢◌, ◌∙◌, refl,
  sym, ap, append_assoc,
}
use tlsscan.Wire.{Bytes}
use tlsscan.Wire.Headers.{record_handshake, wrap_tls12_record}
use tlsscan.Wire.Hello.{cbc_client_hello}
use tlsscan.Net.{◌>>=◌, dial, Peer, Conn, ok, after}
use tlsscan.Net.Full.{flat-append, flat}
use tlsscan.Cbc.{CbcSession}
use tlsscan.Session.Keys.{new_session}
use tlsscan.Renegotiation.Reassembly.{records, AreFragments}
use tlsscan.Session.{Library}
use tlsscan.Session.Taken.{send_taken}
use tlsscan.Session.Flight.{Flight}
use tlsscan.Session.Finish.{
  Outcome, rejected, accepted_finished, accepted_data, expect_server_finished,
}
use tlsscan.Session.Pending.{AreHandshakes, Pending}
use tlsscan.Session.Flown.{IsFlight, read_flight-IsFlight}
use tlsscan.Session.Acceptance.{wire, types, Fit, finished_loop-left, left_of}
use tlsscan.Session.Rounds.{Accepts}
use tlsscan.Session.Verdict.{expect_server_finished_iff}
use tlsscan.Session.Establish.{
  advanced, accepted, finished, fresh, client_key_exchange, change_cipher_spec, finished_record,
  spec_sent, exchange_sent, complete, hello_sent, handshake, establish_cbc_session,
}

-- What the server says of the Finished, and where the connection is then.
answer-Accepts :
    (o : Outcome) (version : ℕ) (rs : List (ℕ × Bytes)) (c : Conn)
    → o ≢ rejected
    → Fit rs
    → flat c.inbound ≡ wire version rs
    → Accepts o 6 (types rs)
    → (ps : List Bytes) × (expect_server_finished c ≡ (ok o, record c { inbound = ps }))
      × (flat ps ≡ wire version (left_of 6 false rs))
unfolding expect_server_finished
answer-Accepts o version rs c ne fit s a =
    let said = (expect_server_finished_iff o version rs c ne fit s).1 a in
    let (ps, e, left) = finished_loop-left 6 false version rs c fit s (λ r. ne (sym said ∙ r)) in
    (ps, e ∙ ap (λ x. (ok x, record c { inbound = ps })) said, left)

module _ (lib : Library) (host random : Bytes) (peer : Peer) where
  abbrev pub hello : Bytes
  hello = cbc_client_hello host random

  abbrev pub key_exchange : Flight → Bytes
  key_exchange f = wrap_tls12_record record_handshake (client_key_exchange lib f)

  -- What the client has written after each of its messages.
  abbrev pub first : List Bytes
  first = hello ∷ []

  abbrev pub second : Flight → List Bytes
  second f = first ++ key_exchange f ∷ []

  abbrev pub third : Flight → List Bytes
  third f = second f ++ change_cipher_spec lib ∷ []

  abbrev pub fourth : Flight → Bytes → List Bytes
  fourth f fin = third f ++ fin ∷ []

  -- A server that takes every message; answers the ClientHello with the flight `f`, in any
  -- handshake records; and answers the rest with records that accept the Finished.
  pub record Conforms (f : Flight) (fin : Bytes) (o : Outcome) : Type 0 where
    pub takes : (sent : List Bytes) → peer.accepts sent ≡ true
    pub messages : List Bytes
    pub is_flight : IsFlight lib (drop 5 hello) messages f
    pub are_handshakes : AreHandshakes messages
    pub small : length (flat messages) ≤ 262144
    pub version : ℕ
    pub frags : List Bytes
    pub are_fragments : AreFragments frags
    pub framed_in : flat (peer.reply first) ≡ records version frags
    pub split : flat frags ≡ flat messages
    pub answer : List (ℕ × Bytes)
    pub answer_version : ℕ
    pub fits : Fit answer
    pub answers :
        flat (peer.reply (second f))
          ++ (flat (peer.reply (third f)) ++ flat (peer.reply (fourth f fin)))
        ≡ wire answer_version answer
    pub accepts : Accepts o 6 (types answer)

  -- Records of the server that the session counts.
  abbrev pub server_records : Outcome → ℕ
  server_records rejected = 0
  server_records accepted_finished = 1
  server_records accepted_data = 0

  -- The session with the keys of the flight, after the records of both sides.
  abbrev pub session_of : Flight → Outcome → Conn → CbcSession
  session_of f o c = record (fresh lib random f c) { client_seq = 1; server_seq = server_records o }

  accepted_lem :
      (f : Flight) (o : Outcome) (c₀ c : Conn)
      → o ≢ rejected
      → finished (accepted (advanced (fresh lib random f c₀)) o c) ≡ some (session_of f o c)
  unfolding new_session
  accepted_lem f rejected c₀ c ne = absurd (ne refl)
  accepted_lem f accepted_finished c₀ c ne = refl
  accepted_lem f accepted_data c₀ c ne = refl

  -- From the flight on, on a connection that holds only what the server sends next.
  complete-Conforms :
      (f : Flight) (fin : Bytes) (o : Outcome) (conforms : Conforms f fin o) (c₀ : Conn)
      (ps : List Bytes)
      → finished_record lib random f (fresh lib random f c₀) ≡ some fin
      → o ≢ rejected
      → flat ps ≡ []
      → (qs : List Bytes) × (complete lib random c₀ f
            (record { peer = peer; sent = first; inbound = ps })
          ≡ accepted
              (advanced (fresh lib random f c₀))
              o
              (record { peer = peer; sent = fourth f fin; inbound = qs }))
        × (flat qs ≡ wire conforms.answer_version (left_of 6 false conforms.answer))
  complete-Conforms f fin o conforms c₀ ps hf ne none =
      let s = fresh lib random f c₀ in
      let ps₂ = ps ++ peer.reply (second f) in
      let ps₃ = ps₂ ++ peer.reply (third f) in
      let ps₄ = ps₃ ++ peer.reply (fourth f fin) in
      let stream : flat ps₄ ≡ wire conforms.answer_version conforms.answer =
        flat-append ps₃ (peer.reply (fourth f fin))
        ∙ ap (λ x. x ++ flat (peer.reply (fourth f fin)))
            (flat-append ps₂ (peer.reply (third f))
              ∙ ap (λ x. x ++ flat (peer.reply (third f)))
                  (flat-append ps (peer.reply (second f)) ∙ rw none refl))
        ∙ append_assoc (flat (peer.reply (second f))) (flat (peer.reply (third f)))
            (flat (peer.reply (fourth f fin)))
        ∙ conforms.answers in
      let (qs, e, left) =
        answer-Accepts o conforms.answer_version conforms.answer
          (record { peer = peer; sent = fourth f fin; inbound = ps₄ }) ne conforms.fits stream
          conforms.accepts in
      (
        qs,
        ap (λ r. after r (λ _. exchange_sent lib random f s))
              (send_taken peer conforms.takes first ps (key_exchange f))
            ∙ ap (λ r. after r (λ _. spec_sent lib random f s))
                (send_taken peer conforms.takes (second f) ps₂ (change_cipher_spec lib))
            ∙ rw hf (
                ap (λ r. after r (λ _. expect_server_finished >>= accepted (advanced s)))
                  (send_taken peer conforms.takes (third f) ps₃ fin)
                ∙ ap (λ r. after r (accepted (advanced s))) e),
        left,
      )

  flight_waits :
      (f : Flight) (fin : Bytes) (o : Outcome) (k : Conforms f fin o)
      → Pending [] k.messages [] (record { peer = peer; sent = first; inbound = peer.reply first })
  flight_waits f fin o k = record {
    version = k.version;
    frags = k.frags;
    are_fragments = k.are_fragments;
    are_handshakes = k.are_handshakes;
    stream = k.framed_in ∙ sym (append-nil (records k.version k.frags));
    split = k.split;
    small = k.small;
  }

  -- Take a server that takes every message, answers the ClientHello with the messages of a
  -- flight (at most 262144 bytes, in any records and packets), and answers the rest with whole
  -- records that `expectServerFinished` accepts. If the 32 random bytes and the encrypted
  -- Finished can be made, `establishCBCSession` returns the session whose keys come from the
  -- secrets of that flight, with one record counted for the client and one for the server if its
  -- Finished was seen, on a connection on which exactly the four messages of the client have
  -- been sent and exactly the records behind the accepted one wait.
  pub establish_cbc_session-Conforms :
      (f : Flight) (fin : Bytes) (o : Outcome) (k : Conforms f fin o)
      → lib.crypto.random 32 ≡ some random
      → finished_record lib random f
          (fresh lib random f (record { peer = peer; sent = []; inbound = [] }))
        ≡ some fin
      → o ≢ rejected
      → (qs : List Bytes) × (establish_cbc_session lib host (some peer)
          ≡ some (session_of f o (record { peer = peer; sent = fourth f fin; inbound = qs })))
        × (flat qs ≡ wire k.answer_version (left_of 6 false k.answer))
  unfolding establish_cbc_session handshake dial
  establish_cbc_session-Conforms f fin o k hr hf ne =
      let c₀ : Conn = record { peer = peer; sent = []; inbound = [] } in
      let d =
        read_flight-IsFlight lib (drop 5 hello) [] k.messages f
          (record { peer = peer; sent = first; inbound = peer.reply first }) k.is_flight
          (flight_waits f fin o k) in
      let (qs, e, left) = complete-Conforms f fin o k c₀ d.packets hf ne d.remaining in
      (
        qs,
        ap finished (
              rw hr (
                ap (λ r. after r (λ _. hello_sent lib hello random c₀))
                  (send_taken peer k.takes [] [] hello)
                ∙ ap (λ r. after r (complete lib random c₀)) d.returned
                ∙ e))
            ∙ accepted_lem f o c₀ _ ne,
        left,
      )

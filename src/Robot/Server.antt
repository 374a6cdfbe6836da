-- ===== src/Robot/Server.antt =====
-- internal/handshake/robot.go: `robotServerRSAKey` and `robotExchange` against a server that answers
-- with a flight of messages, cut in any way, and then with any bytes.
use tlsscan.Base.{
  ℕ, ◌≤◌, true, false, List, [], ◌∷◌, ◌++◌, none, some, length, ◌≡◌, ◌∙◌, refl, sym, ap,
  append_assoc, append-nil,
}
use tlsscan.Wire.{Bytes}
use tlsscan.Wire.Hello.{robot_client_hello}
use tlsscan.Net.{Peer, Io, ok, dial, after, ◌>>=◌, ◌>>◌}
use tlsscan.Net.Full.{flat, flat-append}
use tlsscan.Net.Step.{with_packets}
use tlsscan.Reaction.{Reaction}
use tlsscan.Reaction.Stream.{robot_reaction, read_robot_response_lem}
use tlsscan.Renegotiation.Reassembly.{records, AreFragments}
use tlsscan.Session.{RsaPublicKey, send}
use tlsscan.Session.Pending.{AreHandshakes}
use tlsscan.Session.Taken.{TakesAll, send_taken}
use tlsscan.Robot.{
  RobotVectorKind, build_pkcs1_vector, robot_client_key_exchange, robot_change_cipher_spec,
  robot_bogus_finished,
}
use tlsscan.Robot.Flight.{read_server_hello_and_cert}
use tlsscan.Robot.Messages.{heard, unread}
use tlsscan.Robot.Coalesced.{read_server_hello_and_cert-heard}
use tlsscan.Robot.Exchange.{
  RobotLibrary, modulus_len, rsa_encrypt, new_pms, robot_server_rsa_key, robot_exchange, key_of,
  flight_read, react_to, react, returned, or_none,
}

module _ (lib : RobotLibrary) (host : Bytes) (peer : Peer) where
  -- What the client has written after each of its messages, by the ciphertext it sends.
  abbrev pub greeted : List Bytes
  greeted = robot_client_hello host ∷ []

  abbrev pub key_sent : Bytes → List Bytes
  key_sent cipher = greeted ++ robot_client_key_exchange cipher ∷ []

  abbrev pub change_sent : Bytes → List Bytes
  change_sent cipher = key_sent cipher ++ robot_change_cipher_spec ∷ []

  abbrev pub all_sent : Bytes → List Bytes
  all_sent cipher = change_sent cipher ++ robot_bogus_finished ∷ []

  -- The bytes that the server sends in answer to the three crafted messages.
  abbrev pub verdict_bytes : Bytes → Bytes
  verdict_bytes cipher =
      flat (peer.reply (key_sent cipher))
      ++ (flat (peer.reply (change_sent cipher)) ++ flat (peer.reply (all_sent cipher)))

  -- How the probe sees the answer to a ciphertext.
  abbrev pub answer_to : Bytes → Reaction
  answer_to cipher = robot_reaction (verdict_bytes cipher) (peer.fault (all_sent cipher))

  -- A server that takes every message and answers the ClientHello with a flight that shows the
  -- key, ends in its ServerHelloDone, and is cut into at most sixteen records.
  pub record ShowsKey (key : RsaPublicKey) : Type 0 where
    pub takes : TakesAll peer
    pub messages : List Bytes
    pub are_handshakes : AreHandshakes messages
    pub small : length (flat messages) ≤ 131072
    pub says :
        heard lib.rsa_key messages (record { hello = false; key = none }) ≡ some (true, some key)
    pub ends : unread messages ≡ []
    pub version : ℕ
    pub frags : List Bytes
    pub are_fragments : AreFragments frags
    pub few : length frags ≤ 16
    pub framed_in : flat (peer.reply greeted) ≡ records version frags
    pub split : flat frags ≡ flat messages

  abbrev finished_sent : Io Reaction
  finished_sent = send robot_bogus_finished >> react lib host

  abbrev changes_sent : Io Reaction
  changes_sent = send robot_change_cipher_spec >> finished_sent

  module _ {key : RsaPublicKey} (shows : ShowsKey key) where
    flight_lem :
        (ps : List Bytes) × (read_server_hello_and_cert lib.rsa_key
            (with_packets peer greeted (peer.reply greeted))
          ≡ (ok (true, some key), with_packets peer greeted ps))
        × (flat ps ≡ [])
    flight_lem =
        let (ps, e, left) =
          read_server_hello_and_cert-heard lib.rsa_key shows.version shows.frags [] shows.messages
            (with_packets peer greeted (peer.reply greeted)) (true, some key) shows.are_fragments
            shows.are_handshakes shows.few shows.small
            (shows.framed_in ∙ sym (append-nil (records shows.version shows.frags))) shows.split
            shows.says in
        (ps, e, left shows.ends)

    pub robot_server_rsa_key-ShowsKey : robot_server_rsa_key lib host (some peer) ≡ some key
    unfolding robot_server_rsa_key dial
    robot_server_rsa_key-ShowsKey =
        let (ps, e, _) = flight_lem in
        ap
          (λ r. or_none (after r (λ _. read_server_hello_and_cert lib.rsa_key >>= key_of lib host)))
          (send_taken peer shows.takes [] [] (robot_client_hello host))
        ∙ ap (λ r. or_none (after r (key_of lib host))) e

    -- From the flight on, on a connection where nothing waits.
    crafted_lem :
        (cipher : Bytes) (ps : List Bytes)
        → flat ps ≡ []
        → returned (react_to lib host cipher (with_packets peer greeted ps))
          ≡ some (answer_to cipher)
    crafted_lem cipher ps none_left =
        let ps₂ = ps ++ peer.reply (key_sent cipher) in
        let ps₃ = ps₂ ++ peer.reply (change_sent cipher) in
        let ps₄ = ps₃ ++ peer.reply (all_sent cipher) in
        let stream : flat ps₄ ≡ verdict_bytes cipher =
          flat-append ps₃ (peer.reply (all_sent cipher))
          ∙ ap (λ x. x ++ flat (peer.reply (all_sent cipher)))
              (flat-append ps₂ (peer.reply (change_sent cipher))
                ∙ ap (λ x. x ++ flat (peer.reply (change_sent cipher)))
                    (flat-append ps (peer.reply (key_sent cipher)) ∙ rw none_left refl))
          ∙ append_assoc (flat (peer.reply (key_sent cipher)))
              (flat (peer.reply (change_sent cipher))) (flat (peer.reply (all_sent cipher))) in
        ap (λ r. returned (after r (λ _. changes_sent)))
          (send_taken peer shows.takes greeted ps (robot_client_key_exchange cipher))
        ∙ ap (λ r. returned (after r (λ _. finished_sent)))
            (send_taken peer shows.takes (key_sent cipher) ps₂ robot_change_cipher_spec)
        ∙ ap (λ r. returned (after r (λ _. react lib host)))
            (send_taken peer shows.takes (change_sent cipher) ps₃ robot_bogus_finished)
        ∙ ap some (read_robot_response_lem (with_packets peer (all_sent cipher) ps₄))
        ∙ ap (λ x. some (robot_reaction x (peer.fault (all_sent cipher)))) stream

    -- Against such a server, `robotExchange` returns how the probe sees what it sends in answer to
    -- the encrypted vector.
    pub robot_exchange-ShowsKey :
        (kind : RobotVectorKind) (block : Bytes)
        → build_pkcs1_vector kind (modulus_len lib.big key) (new_pms lib) ≡ some block
        → robot_exchange lib host key kind (some peer)
          ≡ some (answer_to (rsa_encrypt lib.big key block))
    unfolding robot_exchange dial
    robot_exchange-ShowsKey kind block built =
        let (ps, e, none_left) = flight_lem in
        ap
          (λ r. returned (
            after r
              (λ _. read_server_hello_and_cert lib.rsa_key >>= flight_read lib host key kind)))
          (send_taken peer shows.takes [] [] (robot_client_hello host))
        ∙ ap (λ r. returned (after r (flight_read lib host key kind))) e
        ∙ rw built (crafted_lem (rsa_encrypt lib.big key block) ps none_left)

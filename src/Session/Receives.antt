-- ===== src/Session/Receives.antt =====
-- internal/handshake/cbc_oracle.go: `cbcExchange` and `ProbeCBCPaddingOracles` over a network, against
-- a server that decrypts the crafted records and reacts to what it receives.
use tlsscan.Base.{true, false, ◌++◌, [], ◌∷◌, Option, none, some, ◌≡◌, ◌≢◌, ◌∙◌, refl, ap}
use tlsscan.Wire.{Bytes}
use tlsscan.Wire.Headers.{record_application_data, wrap_tls12_record}
use tlsscan.Net.{Peer}
use tlsscan.Net.Step.{with_packets}
use tlsscan.Reaction.{Reaction}
use tlsscan.Cbc.{CbcSession, compute_mac, mac_then_pad, send_crafted}
use tlsscan.Cbc.Padding.{Reception, receive}
use tlsscan.Cbc.Oracle.{CbcVector, manipulation, request}
use tlsscan.Cbc.Stimuli.{IsSha1}
use tlsscan.Cbc.FalseAlarm.{seen}
use tlsscan.Session.{Library}
use tlsscan.Session.Flight.{Flight}
use tlsscan.Session.Finish.{Outcome, rejected}
use tlsscan.Session.Acceptance.{left_of, wire}
use tlsscan.Session.Keys.{new_session}
use tlsscan.Session.Establish.{
  fresh, finished_record, establish_cbc_session, cbc_exchange, reaction_of, Attempt, is_some,
}
use tlsscan.Session.Server.{Conforms, fourth, session_of, establish_cbc_session-Conforms}
use tlsscan.Session.Crafted.{plaintext, answered, send_crafted-reaction}

-- The session that the handshake establishes, up to its connection.
abbrev pub keyed : Library → Bytes → Bytes → Peer → Flight → Outcome → CbcSession
keyed lib host client_random peer flight outcome =
    session_of lib host client_random peer flight outcome (with_packets peer [] [])

-- One use of the network, by a server that follows the handshake, sends nothing behind its Finished
-- before the request, and reacts to a record by what it receives in it. Of AES is relied on that
-- decryption inverts encryption.
pub record Receives (attempt : Attempt) (host : Bytes) (reacts : Reception → Reaction)
    : Type 0 where
  pub peer : Peer
  pub reached : attempt.target ≡ some peer
  pub client_random : Bytes
  pub has_random : attempt.library.crypto.random 32 ≡ some client_random
  pub flight : Flight
  pub fin : Bytes
  pub outcome : Outcome
  pub conforms : Conforms attempt.library host client_random peer flight fin outcome
  pub fin_made :
      finished_record attempt.library client_random flight
        (fresh attempt.library client_random flight (with_packets peer [] []))
      ≡ some fin
  pub is_accepted : outcome ≢ rejected
  pub waits : left_of 6 false conforms.answer ≡ []
  pub aes : flight.params.iv_len ≡ 16
  pub sha1 : IsSha1 attempt.library.crypto
  pub iv : Bytes
  pub iv_made : attempt.library.crypto.random flight.params.iv_len ≡ some iv
  pub decrypt : Bytes → Bytes → Bytes → Bytes
  pub inverts :
      (plain : Bytes)
      → (ct : Bytes) × (attempt.library.crypto.encrypt
            (keyed attempt.library host client_random peer flight outcome).client_write_key
            iv
            plain
          ≡ some ct)
        × (decrypt
              (keyed attempt.library host client_random peer flight outcome).client_write_key
              iv
              ct
            ≡ plain)
  pub reads :
      (ct : Bytes)
      → answered peer (
          fourth attempt.library host client_random peer flight fin
          ++ wrap_tls12_record record_application_data (iv ++ ct) ∷ [])
        ≡ reacts (
            receive
              (compute_mac attempt.library.crypto
                (keyed attempt.library host client_random peer flight outcome).client_write_mac
                (keyed attempt.library host client_random peer flight outcome).client_seq
                record_application_data)
              20
              (decrypt
                (keyed attempt.library host client_random peer flight outcome).client_write_key
                iv
                ct))

module _ {attempt : Attempt} {host : Bytes} {reacts : Reception → Reaction}
    (d : Receives attempt host reacts) where
  -- The session in which the crafted records are sent.
  abbrev pub session : CbcSession
  session = keyed attempt.library host d.client_random d.peer d.flight d.outcome

  abbrev exchange_in : CbcVector → Option CbcSession → Option Reaction
  exchange_in vec target = elim target [
    | none ↦ none
    | some s ↦ reaction_of attempt.library (
        send_crafted attempt.library.crypto s (request host) (manipulation vec).0
          (manipulation vec).1)
  ]

  pub session_established :
      is_some (establish_cbc_session attempt.library host attempt.target) ≡ true
  session_established =
      let (qs, e, left) =
        establish_cbc_session-Conforms attempt.library host d.client_random d.peer d.flight d.fin
          d.outcome d.conforms d.has_random d.fin_made d.is_accepted in
      rw d.reached (ap is_some e)

  -- One exchange gives the reaction to what the server receives.
  pub exchange_received :
      (vec : CbcVector)
      → cbc_exchange attempt.library host vec attempt.target
        ≡ some (reacts (seen attempt.library.crypto session vec (request host)))
  unfolding cbc_exchange mac_then_pad new_session
  exchange_received vec =
      let (qs, e, left) =
        establish_cbc_session-Conforms attempt.library host d.client_random d.peer d.flight d.fin
          d.outcome d.conforms d.has_random d.fin_made d.is_accepted in
      let m = manipulation vec in
      let sent = fourth attempt.library host d.client_random d.peer d.flight d.fin in
      let (ct, made, back) =
        d.inverts (plaintext attempt.library.crypto session (request host) m.0 m.1) in
      rw d.reached (
        ap (exchange_in vec) e
        ∙ send_crafted-reaction attempt.library
            (record session { conn = with_packets d.peer sent qs }) d.peer sent qs (request host)
            m.0 m.1 d.iv ct refl d.conforms.takes
            (left ∙ ap (wire d.conforms.answer_version) d.waits) d.iv_made made
        ∙ ap some (d.reads ct)
        ∙ ap
            (λ x. some (
              reacts (
                receive
                  (compute_mac attempt.library.crypto session.client_write_mac session.client_seq
                    record_application_data)
                  20 x)))
            back)

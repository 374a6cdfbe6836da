-- ===== src/Session/Establish.antt =====
-- internal/handshake/cbc.go: `establishCBCSession`; internal/handshake/cbc_oracle.go: `cbcExchange`,
-- and `ProbeCBCPaddingOracles` over a network.
use tlsscan.Base.{ℕ, suc, ◌+◌, ◌%◌, ◌^◌, Bool, true, false, [], ◌∷◌, ◌++◌, Option, none, some, drop}
use tlsscan.Base.Int.{negsuc}
use tlsscan.Wire.{Bytes}
use tlsscan.Wire.Headers.{
  record_change_cipher_spec, record_handshake, wrap_handshake, wrap_tls12_record,
}
use tlsscan.Wire.Hello.{cbc_client_hello}
use tlsscan.Net.{Peer, Conn, Result, ok, err, Io, ◌>>=◌, ◌>>◌, pure, dial}
use tlsscan.Reaction.{Reaction, read_reaction}
use tlsscan.Cbc.{CbcSession, mac_then_pad, encrypt_record, send_crafted}
use tlsscan.Cbc.Oracle.{CbcVector, CbcResult, manipulation, request, probe_cbc_padding_oracles}
use tlsscan.Session.{Library, need, abandon, send}
use tlsscan.Session.Flight.{Flight, read_flight}
use tlsscan.Session.Keys.{master_secret, key_block, verify_data, new_session}
use tlsscan.Session.Finish.{
  Outcome, rejected, accepted_finished, accepted_data, expect_server_finished,
}

abbrev pub handshake_client_key_exchange : ℕ
handshake_client_key_exchange = 0x10

abbrev pub handshake_finished : ℕ
handshake_finished = 0x14

-- `sess.clientSeq++`.
abbrev pub advanced : CbcSession → CbcSession
advanced s = record s { client_seq = (s.client_seq + 1) % 2 ^ 64 }

-- The end of `establishCBCSession`, with `s.serverSeq++` of `expectServerFinished`.
abbrev pub accepted : CbcSession → Outcome → Io CbcSession
accepted s rejected = abandon
accepted s accepted_finished = pure (record s { server_seq = (s.server_seq + 1) % 2 ^ 64 })
accepted s accepted_data = pure s

-- The session holds the connection as it is when the handshake ends.
abbrev pub finished : Result CbcSession × Conn → Option CbcSession
finished (ok s, c) = some (record s { conn = c })
finished (err e, c) = none

module _ (lib : Library) where
  abbrev pub master_of : Bytes → Flight → Bytes
  master_of client_random f =
      master_secret lib.hmac_sha256 f.premaster client_random f.server_random

  -- The session whose keys come from the flight, before the Finished.
  abbrev pub fresh : Bytes → Flight → Conn → CbcSession
  fresh client_random f c =
      new_session c f.params (
        key_block lib.hmac_sha256 f.params (master_of client_random f) client_random
          f.server_random)

  abbrev pub client_key_exchange : Flight → Bytes
  client_key_exchange f = wrap_handshake handshake_client_key_exchange f.body

  abbrev pub change_cipher_spec : Bytes
  change_cipher_spec = wrap_tls12_record record_change_cipher_spec (0x01 ∷ [])

  abbrev pub finished_message : Bytes → Flight → Bytes
  finished_message client_random f = wrap_handshake handshake_finished (
      verify_data lib.hmac_sha256 (master_of client_random f)
        (lib.sha256 (f.transcript ++ client_key_exchange f)))

  -- The Finished, under the new keys.
  unfoldable pub finished_record : Bytes → Flight → CbcSession → Option Bytes
  finished_record client_random f s = encrypt_record lib.crypto s record_handshake (
      mac_then_pad lib.crypto s record_handshake (finished_message client_random f) false
        (negsuc 0))

  abbrev pub finish : CbcSession → Bytes → Io CbcSession
  finish s fin = send fin >> (expect_server_finished >>= accepted (advanced s))

  abbrev pub spec_sent : Bytes → Flight → CbcSession → Io CbcSession
  spec_sent client_random f s = need (finished_record client_random f s) >>= finish s

  abbrev pub exchange_sent : Bytes → Flight → CbcSession → Io CbcSession
  exchange_sent client_random f s = send change_cipher_spec >> spec_sent client_random f s

  -- From the flight on. The session's connection is not used before the handshake ends.
  abbrev pub complete : Bytes → Conn → Flight → Io CbcSession
  complete client_random c₀ f =
      send (wrap_tls12_record record_handshake (client_key_exchange f))
      >> exchange_sent client_random f (fresh client_random f c₀)

  abbrev pub hello_sent : Bytes → Bytes → Conn → Io CbcSession
  hello_sent hello client_random c₀ = read_flight lib (drop 5 hello) >>= complete client_random c₀

  abbrev pub random_made : Bytes → Conn → Bytes → Io CbcSession
  random_made host c₀ client_random =
      let hello = cbc_client_hello host client_random in
      send hello >> hello_sent hello client_random c₀

  unfoldable pub handshake : Bytes → Conn → Io CbcSession
  handshake host c₀ = need (lib.crypto.random 32) >>= random_made host c₀

  unfoldable pub establish_cbc_session : Bytes → Option Peer → Option CbcSession
  establish_cbc_session host target = elim (dial target) [
    | none ↦ none
    | some c ↦ finished (handshake host c c)
  ]

  abbrev pub reaction_of : Bool × CbcSession → Option Reaction
  reaction_of (false, s) = none
  reaction_of (true, s) = some (read_reaction s.conn).0

  unfoldable pub cbc_exchange : Bytes → CbcVector → Option Peer → Option Reaction
  cbc_exchange host vec target = elim (establish_cbc_session host target) [
    | none ↦ none
    | some s ↦
        reaction_of
          (send_crafted lib.crypto s (request host) (manipulation vec).0 (manipulation vec).1)
  ]

-- One use of the network: what the library gives (its random bytes among it), and who answers.
pub record Attempt : Type 0 where
  pub library : Library
  pub target : Option Peer

abbrev pub is_some {ℓ} : {A : Type ℓ} → Option A → Bool
is_some none = false
is_some (some a) = true

-- The `w`-th connection is the `w`-th attempt of the network.
module _ (network : ℕ → Attempt) (host : Bytes) where
  unfoldable pub session_possible : ℕ → Bool × ℕ
  session_possible w =
      (is_some (establish_cbc_session (network w).library host (network w).target), suc w)

  unfoldable pub exchange_on : CbcVector → ℕ → Option Reaction × ℕ
  exchange_on vec w = (cbc_exchange (network w).library host vec (network w).target, suc w)

  unfoldable pub probe_cbc : CbcResult
  probe_cbc = (probe_cbc_padding_oracles session_possible exchange_on 0).0

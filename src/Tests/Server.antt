-- ===== src/Tests/Server.antt =====
-- cbc.go: the whole handshake, and a session that it has established.
use tlsscan.Base.{false, List, [], ◌∷◌, Option, none, some, replicate, take, ◌≡◌, refl, arith}
use tlsscan.Wire.{Bytes}
use tlsscan.Net.{Conn}
use tlsscan.Net.Full.{flat}
use tlsscan.Cbc.{CbcSession, encrypt_record}
use tlsscan.Session.Finish.{round, accepted_finished}
use tlsscan.Session.Keys.{new_session}
use tlsscan.Net.Stream.{Agrees}
use tlsscan.Session.Reader.{next}
use tlsscan.Session.Messages.{next_parser}
use tlsscan.Session.Fuel.{next_enough}
use tlsscan.Session.Establish.{fresh, finished_record, establish_cbc_session}
use tlsscan.Session.Server.{Conforms, fourth, session_of, establish_cbc_session-Conforms}
use tlsscan.Session.Ready.{IsReady}
use tlsscan.Session.Invariant.{establish_cbc_session-IsReady}
use tlsscan.Tests.Session.{
  frags-AreFragments, lib, host, random, messages, frags, answer, server, messages-AreHandshakes,
  flight, messages_known, finished-ne-rejected, answer-Accepts,
}

abbrev start : Conn
start = record { peer = server; sent = []; inbound = [] }

abbrev pub bytes_of : Option Bytes → Bytes
bytes_of none = []
bytes_of (some b) = b

abbrev fin : Bytes
fin = bytes_of (finished_record lib random flight (fresh lib random flight start))

fin_made : finished_record lib random flight (fresh lib random flight start) ≡ some fin
unfolding finished_record encrypt_record new_session
fin_made = refl

server-Conforms : Conforms lib host random server flight fin accepted_finished
server-Conforms = record {
  takes = λ sent. refl;
  messages = messages;
  is_flight = messages_known;
  are_handshakes = messages-AreHandshakes;
  small = omega arith;
  version = 0x0303;
  frags = frags;
  are_fragments = frags-AreFragments;
  framed_in = refl;
  split = refl;
  answer = answer;
  answer_version = 0x0303;
  fits = (omega arith, (omega arith, tt));
  answers = refl;
  accepts = answer-Accepts;
}

establish_cbc_session-Conforms_example :
    (qs : List Bytes) × (establish_cbc_session lib host (some server)
      ≡ some (
          session_of lib host random server flight accepted_finished (record {
            peer = server;
            sent = fourth lib host random server flight fin;
            inbound = qs;
          })))
    × (flat qs ≡ [])
unfolding server-Conforms round
establish_cbc_session-Conforms_example =
    establish_cbc_session-Conforms lib host random server flight fin accepted_finished
      server-Conforms refl fin_made finished-ne-rejected

run :
    (qs : List Bytes) × (establish_cbc_session lib host (some server)
      ≡ some (
          session_of lib host random server flight accepted_finished (record {
            peer = server;
            sent = fourth lib host random server flight fin;
            inbound = qs;
          })))
    × (flat qs ≡ [])
unfolding server-Conforms round
run =
    establish_cbc_session-Conforms lib host random server flight fin accepted_finished
      server-Conforms refl fin_made finished-ne-rejected

establish_cbc_session-IsReady_example : IsReady (
    session_of lib host random server flight accepted_finished
      (record { peer = server; sent = fourth lib host random server flight fin; inbound = run.0 }))
establish_cbc_session-IsReady_example =
    establish_cbc_session-IsReady lib host (some server) _ (λ key message. refl) run.1

-- A session after four messages, the last of which was encrypted.
abbrev session : CbcSession
session = record {
  conn = record { peer = server; sent = [] ∷ [] ∷ [] ∷ [] ∷ []; inbound = [] };
  params = record { key_len = 16; mac_len = 20; iv_len = 16; ecdhe = false };
  client_write_key = replicate 16 1;
  server_write_key = replicate 16 2;
  client_write_mac = replicate 20 3;
  server_write_mac = replicate 20 4;
  client_seq = 1;
  server_seq = 1;
}

next_enough_example :
    Agrees start
      (next (take 50 (flat messages)) start)
      (next_parser 262147 (take 50 (flat messages)) [])
next_enough_example = next_enough 1 (take 50 (flat messages)) start (omega arith)

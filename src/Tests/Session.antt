-- ===== src/Tests/Session.antt =====
-- cbc.go: a handshake with a concrete server, with stand-ins for the primitives.
use tlsscan.Base.{
  ℕ, true, false, List, [], ◌∷◌, ◌++◌, none, some, replicate, take, drop, ◌≡◌, ◌≢◌, ◌↔◌, refl, ap,
  arith,
}
use tlsscan.Base.Text.{codes}
use tlsscan.Wire.{Bytes}
use tlsscan.Net.{Peer}
use tlsscan.Net.Full.{flat}
use tlsscan.Cbc.{Crypto, params_for_suite}
use tlsscan.Parse.{parse_server_hello_suite, parse_leaf_rsa_key, leaf_certificate, leaf_at}
use tlsscan.Parse.Slice.{slice, read16, read24}
use tlsscan.Renegotiation.Reassembly.{records, AreFragments}
use tlsscan.Session.{Library}
use tlsscan.Session.Finish.{Outcome, rejected, accepted_finished, expect_server_finished}
use tlsscan.Session.Flight.{Flight, rsa_secret, read_flight}
use tlsscan.Session.Pending.{Pending, AreHandshakes}
use tlsscan.Session.Received.{Ended, by_rsa}
use tlsscan.Session.Flown.{IsFlight, is_flight, read_flight-IsFlight}
use tlsscan.Session.Acceptance.{wire, types, decided}
use tlsscan.Session.Rounds.{Accepts, by_finished}
use tlsscan.Session.Verdict.{expect_server_finished_iff}
use tlsscan.Session.Server.{hello}

abbrev pub zero_crypto : Crypto
zero_crypto = record {
  hmac_sha1 = λ key message. replicate 20 0;
  encrypt = λ key iv plain. some plain;
  random = λ n. some (replicate n 0);
}

abbrev pub lib : Library
lib = record {
  crypto = zero_crypto;
  hmac_sha256 = λ key message. replicate 32 0;
  sha256 = λ message. replicate 32 1;
  rsa_key = λ der. some (record { n = 3233; e = 17 });
  encrypt_pkcs1 = λ key pms. some (replicate 4 9);
  generate_key = λ curve. none;
  public_bytes = λ curve key. [];
  new_public_key = λ curve point. none;
  ecdh = λ curve key point. none;
}

abbrev pub host : Bytes
host = codes "example.com"

abbrev pub random : Bytes
random = replicate 32 0

-- A ServerHello that chooses TLS_RSA_WITH_AES_128_CBC_SHA, a Certificate, and the ServerHelloDone.
abbrev sh : Bytes
sh = 0x02 ∷ 0 ∷ 0 ∷ 38 ∷ 3 ∷ 3 ∷ (replicate 32 7 ++ 0 ∷ 0x00 ∷ 0x2f ∷ 0 ∷ [])

abbrev cert : Bytes
cert = 0x0b ∷ 0 ∷ 0 ∷ 7 ∷ 0 ∷ 0 ∷ 4 ∷ 0 ∷ 0 ∷ 1 ∷ 0x30 ∷ []

abbrev done : Bytes
done = 0x0e ∷ 0 ∷ 0 ∷ 0 ∷ []

abbrev pub messages : List Bytes
messages = sh ∷ cert ∷ done ∷ []

-- The flight in three records, none of which ends with a message.
abbrev pub frags : List Bytes
frags = take 3 (flat messages) ∷ take 45 (drop 3 (flat messages)) ∷ drop 48 (flat messages) ∷ []

-- A ChangeCipherSpec, and a Finished of 40 bytes.
abbrev pub answer : List (ℕ × Bytes)
answer = (0x14, 1 ∷ []) ∷ (0x16, replicate 40 5) ∷ []

abbrev replies : List Bytes → List Bytes
replies (a ∷ []) = records 0x0303 frags ∷ []
replies (a ∷ b ∷ c ∷ d ∷ []) = wire 0x0303 answer ∷ []
replies _ = []

abbrev pub server : Peer
server = record {
  reply = replies;
  accepts = λ sent. true;
  fault = λ sent. record { timeout = true; message = codes "i/o timeout" };
}

abbrev pub flight_for : Bytes → Flight
flight_for name = record {
  params = record { key_len = 16; mac_len = 20; iv_len = 16; ecdhe = false };
  server_random = replicate 32 7;
  premaster = 3 ∷ 3 ∷ replicate 46 0;
  body = 0 ∷ 4 ∷ replicate 4 9;
  transcript = (((drop 5 (hello lib name random server) ++ sh) ++ cert) ++ []) ++ flat (done ∷ []);
}

pub known_for :
    (name : Bytes) → IsFlight lib (drop 5 (hello lib name random server)) messages (flight_for name)
unfolding parse_server_hello_suite params_for_suite rsa_secret parse_leaf_rsa_key leaf_certificate
    leaf_at slice read16 read24
known_for name = is_flight sh cert done [] [] refl refl refl refl (by_rsa refl refl) tt refl

pub messages-AreHandshakes : AreHandshakes messages
messages-AreHandshakes = (
  record { has_header = omega arith; is_whole = refl },
  (
    record { has_header = omega arith; is_whole = refl },
    (record { has_header = omega arith; is_whole = refl }, tt),
  ),
)

abbrev transcript : Bytes
transcript = drop 5 (hello lib host random server)

abbrev pub flight : Flight
flight = flight_for host

pub messages_known : IsFlight lib transcript messages flight
messages_known = known_for host

pub frags-AreFragments : AreFragments frags
frags-AreFragments =
    (omega arith, omega arith, (omega arith, omega arith, (omega arith, omega arith, tt)))

waiting :
    Pending [] messages []
      (record { peer = server; sent = []; inbound = records 0x0303 frags ∷ [] })
waiting = record {
  version = 0x0303;
  frags = frags;
  are_fragments = frags-AreFragments;
  are_handshakes = messages-AreHandshakes;
  stream = refl;
  split = refl;
  small = omega arith;
}

read_flight-IsFlight_example :
    Ended [] flight
      (record { peer = server; sent = []; inbound = records 0x0303 frags ∷ [] })
      (read_flight lib transcript
        (record { peer = server; sent = []; inbound = records 0x0303 frags ∷ [] }))
read_flight-IsFlight_example =
    read_flight-IsFlight lib transcript [] messages flight
      (record { peer = server; sent = []; inbound = records 0x0303 frags ∷ [] }) messages_known
      waiting

pub finished-ne-rejected : accepted_finished ≢ rejected
finished-ne-rejected e = let q = ap number e in absurd (omega (arith, q))
  where
    number : Outcome → ℕ
    number rejected = 0
    number _ = 1

pub answer-Accepts : Accepts accepted_finished 6 (types answer)
answer-Accepts = record {
  before = [];
  rest = 0x16 ∷ [];
  room = 1;
  split = refl;
  quiet = tt;
  ends = record {
    between = [];
    last = 0x16;
    after = [];
    split = refl;
    waiting = tt;
    finishes = by_finished;
    in_time = omega arith;
  };
  in_time = omega arith;
}

expect_server_finished_iff_example :
    (decided (
        expect_server_finished
          (record { peer = server; sent = []; inbound = wire 0x0303 answer ∷ [] }))
      ≡ accepted_finished)
    ↔ Accepts accepted_finished 6 (types answer)
expect_server_finished_iff_example =
    expect_server_finished_iff accepted_finished 0x0303 answer
      (record { peer = server; sent = []; inbound = wire 0x0303 answer ∷ [] }) finished-ne-rejected
      (omega arith, (omega arith, tt)) refl

-- ===== src/Tests/Padding.antt =====
-- `ProbeCBCPaddingOracles` over networks, against a server whose reaction to invalid padding is one of
-- its own, as in a padding oracle.
use tlsscan.Base.{ℕ, true, false, List, [], ◌∷◌, ◌++◌, some, drop, replicate, ◌≡◌, ◌≢◌, refl, arith}
use tlsscan.Base.Text.{codes}
use tlsscan.Wire.{Bytes}
use tlsscan.Wire.Headers.{record_application_data, wrap_tls12_record}
use tlsscan.Net.{Peer}
use tlsscan.Net.Full.{flat}
use tlsscan.Net.Step.{with_packets}
use tlsscan.Reaction.{Reaction, alert, data_kept, plain, equal}
use tlsscan.Reaction.Stream.{cbc_reaction}
use tlsscan.Renegotiation.Reassembly.{records}
use tlsscan.Cbc.{compute_mac, mac_then_pad, flip_last, align, encrypt_record}
use tlsscan.Cbc.Padding.{Reception, bad_padding, bad_mac, accepted, receive}
use tlsscan.Cbc.Oracle.{vec_bad_pad, vec_zero_len, all_false, request, manipulation}
use tlsscan.Session.Finish.{accepted_finished, round}
use tlsscan.Session.Keys.{new_session}
use tlsscan.Session.Acceptance.{wire}
use tlsscan.Session.Establish.{Attempt, fresh, finished_record, probe_cbc}
use tlsscan.Session.Server.{Conforms}
use tlsscan.Session.Receives.{Receives}
use tlsscan.Session.Blind.{received, probe_cbc_blind}
use tlsscan.Tests.Server.{bytes_of}
use tlsscan.Tests.Session.{
  frags-AreFragments, lib, random, frags, answer, flight_for, known_for, answer-Accepts, messages,
  messages-AreHandshakes, finished-ne-rejected,
}

-- An oracle: three different reactions.
abbrev pub tells : Reception → Reaction
tells bad_padding = record { kind = alert; alert_level = 2; alert_desc = 21 }
tells bad_mac = record { kind = alert; alert_level = 2; alert_desc = 20 }
tells (accepted content) = plain data_kept

abbrev told : Reception → Bytes
told bad_padding = 0x15 ∷ 3 ∷ 3 ∷ 0 ∷ 2 ∷ 2 ∷ 21 ∷ []
told bad_mac = 0x15 ∷ 3 ∷ 3 ∷ 0 ∷ 2 ∷ 2 ∷ 20 ∷ []
told (accepted content) = 0x17 ∷ 3 ∷ 3 ∷ 0 ∷ 0 ∷ []

-- The MAC of this library is constant, so any key will do.
abbrev read_record : Bytes → Reception
read_record rec = receive (compute_mac lib.crypto [] 1 record_application_data) 20 (drop 21 rec)

abbrev answers : List Bytes → List Bytes
answers (a ∷ []) = records 0x0303 frags ∷ []
answers (a ∷ b ∷ c ∷ d ∷ []) = wire 0x0303 answer ∷ []
answers (a ∷ b ∷ c ∷ d ∷ rec ∷ []) = told (read_record rec) ∷ []
answers _ = []

abbrev telling : Peer
telling = record {
  reply = answers;
  accepts = λ sent. true;
  fault = λ sent. record { timeout = true; message = codes "i/o timeout" };
}

abbrev pub attempt : Attempt
attempt = record { library = lib; target = some telling }

told-tells :
    (r : Reception) (sent : List Bytes)
    → cbc_reaction (flat (told r ∷ [])) (telling.fault sent) ≡ tells r
told-tells bad_padding sent = refl
told-tells bad_mac sent = refl
told-tells (accepted content) sent = refl

abbrev fin_for : Bytes → Bytes
fin_for host = bytes_of (
    finished_record lib random (flight_for host)
      (fresh lib random (flight_for host) (with_packets telling [] [])))

fin_made :
    (host : Bytes)
    → finished_record lib random
        (flight_for host)
        (fresh lib random (flight_for host) (with_packets telling [] []))
      ≡ some (fin_for host)
unfolding finished_record encrypt_record new_session
fin_made host = refl

telling-Conforms :
    (host : Bytes)
    → Conforms lib host random telling (flight_for host) (fin_for host) accepted_finished
telling-Conforms host = record {
  takes = λ sent. refl;
  messages = messages;
  is_flight = known_for host;
  are_handshakes = messages-AreHandshakes;
  small = omega arith;
  version = 0x0303;
  frags = frags;
  are_fragments = frags-AreFragments;
  framed_in = refl;
  split = refl;
  answer = answer;
  answer_version = 0x0303;
  fits = (omega arith, (omega arith, tt));
  answers = refl;
  accepts = answer-Accepts;
}

pub telling-Receives : (host : Bytes) → Receives attempt host tells
unfolding telling-Conforms round new_session compute_mac wrap_tls12_record
telling-Receives host = record {
  peer = telling;
  reached = refl;
  client_random = random;
  has_random = refl;
  flight = flight_for host;
  fin = fin_for host;
  outcome = accepted_finished;
  conforms = telling-Conforms host;
  fin_made = fin_made host;
  is_accepted = finished-ne-rejected;
  waits = refl;
  aes = refl;
  sha1 = λ key message. (refl, omega arith);
  iv = replicate 16 0;
  iv_made = refl;
  decrypt = λ key iv ct. ct;
  inverts = λ plain. (plain, refl, refl);
  reads = λ ct. told-tells (read_record (replicate 21 0 ++ ct)) [];
}

-- What the server receives at a host name of 11 bytes.
abbrev short_name : Bytes
short_name = codes "example.com"

bad_mac-ne : (content : Bytes) → bad_mac ≢ accepted content
bad_mac-ne content e = cc

pad_refused :
    (w : ℕ) (content : Bytes)
    → received (λ w. attempt) short_name tells (λ w. telling-Receives short_name) w vec_bad_pad
      ≢ accepted content
unfolding telling-Receives request manipulation mac_then_pad compute_mac flip_last align receive
pad_refused w content = bad_mac-ne content

zero_refused :
    (w : ℕ) (content : Bytes)
    → received (λ w. attempt) short_name tells (λ w. telling-Receives short_name) w vec_zero_len
      ≢ accepted content
unfolding telling-Receives request manipulation mac_then_pad compute_mac flip_last align receive
zero_refused w content = bad_mac-ne content

probe_cbc_blind_example : probe_cbc (λ w. attempt) short_name ≡ all_false
probe_cbc_blind_example =
    probe_cbc_blind (λ w. attempt) short_name tells (λ w. telling-Receives short_name) pad_refused
      zero_refused

-- And at one of 15 bytes.
abbrev pub long_name : Bytes
long_name = codes "www.example.com"

pub zero_read :
    (w : ℕ)
    → tells
        (received (λ w. attempt) long_name tells (λ w. telling-Receives long_name) w vec_zero_len)
      ≡ tells bad_mac
unfolding telling-Receives request manipulation mac_then_pad compute_mac flip_last align receive
zero_read w = refl

pub request_told : equal (tells bad_mac) (tells (accepted (request long_name))) ≡ false
unfolding equal
request_told = refl

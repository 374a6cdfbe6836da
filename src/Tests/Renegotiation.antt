-- ===== src/Tests/Renegotiation.antt =====
-- ProbeInsecureRenegotiation against a concrete peer.
use tlsscan.Base.{
  true, false, List, [], ◌∷◌, ◌++◌, some, length, take, drop, ◌≡◌, refl, arith, ◌≤◌, append-nil,
}
use tlsscan.Base.Text.{codes}
use tlsscan.Wire.{Bytes}
use tlsscan.Net.{Peer}
use tlsscan.Net.Full.{flat}
use tlsscan.Wire.Headers.{wrap_handshake}
use tlsscan.Parse.RoundTrip.{server_hello}
use tlsscan.Renegotiation.{probe_insecure_renegotiation}
use tlsscan.Renegotiation.Reassembly.{records, AreFragments}
use tlsscan.Renegotiation.Verdict.{probe_insecure_renegotiation_lem}
use tlsscan.Tests.Parse.{hello, hello-IsFitting}

-- The ServerHello in two records, the first of which is shorter than its header.
abbrev fragments : List Bytes
fragments = take 3 (server_hello hello) ∷ drop 3 (server_hello hello) ∷ []

abbrev replying : Peer
replying = record {
  reply = λ sent. (records 0x0303 fragments ++ 0x15 ∷ []) ∷ [];
  accepts = λ sent. true;
  fault = λ sent. record { timeout = true; message = codes "i/o timeout" };
}

fragments-AreFragments : AreFragments fragments
unfolding server_hello wrap_handshake
fragments-AreFragments = (omega arith, omega arith, (omega arith, omega arith, tt))

flat-fragments : flat fragments ≡ server_hello hello
unfolding server_hello wrap_handshake
flat-fragments = refl

short_hello : length (server_hello hello) ≤ 65536
unfolding server_hello wrap_handshake
short_hello = omega arith

-- It carries `renegotiation_info`.
probe_insecure_renegotiation_lem_example : probe_insecure_renegotiation (some replying) ≡ some false
probe_insecure_renegotiation_lem_example =
    probe_insecure_renegotiation_lem replying hello 0x0303 fragments (0x15 ∷ []) hello-IsFitting
      short_hello fragments-AreFragments flat-fragments refl (append-nil _)

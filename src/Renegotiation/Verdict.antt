-- ===== src/Renegotiation/Verdict.antt =====
-- What `ProbeInsecureRenegotiation` reports of a server that answers with a ServerHello.
use tlsscan.Base.{
  ℕ, ◌+◌, ◌≤◌, ◌<◌, Bool, true, false, not, List, [], ◌∷◌, ◌++◌, Option, some, length,
  if◌then◌else◌, ◌≡◌, ◌∙◌, refl, ap, arith, length-append,
}
use tlsscan.Wire.{Bytes, get24-put24}
use tlsscan.Wire.Headers.{wrap_handshake}
use tlsscan.Net.{Peer, pure, ◌>>=◌}
use tlsscan.Net.Full.{flat}
use tlsscan.Net.Stream.{Parser, got, then_parse, >>=-Implements, pure-Implements}
use tlsscan.Probe.Stream.{accepted, answer, found, ask-Implements}
use tlsscan.Parse.RoundTrip.{
  carries, ServerHello, IsFitting, server_hello, has_extension-server_hello,
}
use tlsscan.Renegotiation.{
  message_loop, read_server_hello_message, renegotiation_hello, negated, lacks,
  probe_insecure_renegotiation,
}
use tlsscan.Renegotiation.Message.{loop_parser, message_loop-Implements}
use tlsscan.Renegotiation.Reassembly.{records, AreFragments, IsMessage, loop_parser-records}

server_hello-IsMessage :
    (h : ServerHello) → length (server_hello h) ≤ 65536 → IsMessage (server_hello h)
unfolding server_hello wrap_handshake
server_hello-IsMessage h short = record {
  is_server_hello = refl;
  has_header = omega arith;
  is_whole = ap (λ n. 4 + n) (get24-put24 _ (omega arith)) ∙ omega arith;
  is_short = short;
}

length-fragments : (fs : List Bytes) → AreFragments fs → length fs ≤ length (flat fs)
length-fragments [] are = omega arith
length-fragments (f ∷ fs) are =
    omega (arith, length-append f (flat fs), are.0, length-fragments fs are.2)

verdict-Implements :
    (peer : Peer)
    → accepted peer renegotiation_hello ≡ true
    → probe_insecure_renegotiation (some peer)
      ≡ found
          (some false)
          (then_parse (loop_parser 65538 [] (answer peer renegotiation_hello)) (λ m. got (lacks m)))
unfolding probe_insecure_renegotiation read_server_hello_message
verdict-Implements peer taken =
    let spec : Parser (Option Bool) =
      λ s. then_parse (loop_parser 65538 [] s) (λ m. got (lacks m)) in
    ask-Implements (some false) renegotiation_hello (message_loop 65538 [] >>= λ m. pure (lacks m))
      spec peer
      (>>=-Implements (message_loop 65538 []) (loop_parser 65538 []) (λ m. pure (lacks m))
        (λ m. got (lacks m)) (message_loop-Implements 65538 []) (λ m. pure-Implements (lacks m)))
    ∙ ap
        (λ b. if b then found (some false) (spec (answer peer renegotiation_hello)) else some false)
        taken

-- Take a server that takes the hello and answers with an encoded ServerHello whose fields fit
-- their lengths, of at most 65536 bytes, cut into handshake records that are not empty, with any
-- bytes behind them, in any packets. The probe reports insecure renegotiation exactly if the
-- ServerHello carries no `renegotiation_info`.
pub probe_insecure_renegotiation_lem :
    (peer : Peer) (h : ServerHello) (version : ℕ) (fs : List Bytes) (more : Bytes)
    → IsFitting h
    → length (server_hello h) ≤ 65536
    → AreFragments fs
    → flat fs ≡ server_hello h
    → accepted peer renegotiation_hello ≡ true
    → answer peer renegotiation_hello ≡ records version fs ++ more
    → probe_insecure_renegotiation (some peer) ≡ some (not (carries 0xff01 h.extensions))
unfolding lacks
probe_insecure_renegotiation_lem peer h version fs more fits short are whole taken sent =
    let m : IsMessage (flat fs) = rw whole (server_hello-IsMessage h short) in
    let few : length fs < 65538 = omega (arith, length-fragments fs are, ap length whole, short) in
    verdict-Implements peer taken
    ∙ ap (λ s. found (some false) (then_parse (loop_parser 65538 [] s) (λ q. got (lacks q)))) sent
    ∙ ap (λ r. found (some false) (then_parse r (λ q. got (lacks q))))
        (loop_parser-records 65538 version [] fs more are few m)
    ∙ ap lacks (ap some whole)
    ∙ ap negated (has_extension-server_hello h fits 0xff01)

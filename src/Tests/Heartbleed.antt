-- ===== src/Tests/Heartbleed.antt =====
-- heartbleed.go against concrete peers.
use tlsscan.Base.{true, false, List, [], ◌∷◌, some, ◌≡◌, refl, arith}
use tlsscan.Base.Text.{codes}
use tlsscan.Wire.{Bytes}
use tlsscan.Net.{Peer}
use tlsscan.Heartbleed.{heartbleed}
use tlsscan.Heartbleed.Verdict.{heartbleed_lem, heartbleed_missed}

-- A record of 16384 leaked bytes, whose first byte is there.
abbrev leak : Bytes
leak = 0x18 ∷ 0x03 ∷ 0x02 ∷ 0x40 ∷ 0x00 ∷ 0x02 ∷ []

-- A peer with a flight for the first message, that leaks on the second.
abbrev pub leaking_after : List Bytes → Peer
leaking_after flight = record {
  reply = λ sent. answer sent;
  accepts = λ sent. true;
  fault = λ sent. record { timeout = true; message = codes "i/o timeout" };
}
  where
    answer : List Bytes → List Bytes
    answer (a ∷ b ∷ sent) = leak ∷ []
    answer sent = flight

abbrev pub part_of_hello : Bytes
part_of_hello = 0x16 ∷ 0x03 ∷ 0x02 ∷ 0x00 ∷ 0x31 ∷ 0x02 ∷ []

heartbleed_lem_example : heartbleed (some (leaking_after (part_of_hello ∷ []))) ≡ some true
heartbleed_lem_example =
    heartbleed_lem (leaking_after (part_of_hello ∷ [])) part_of_hello [] refl refl refl
      (omega arith)

heartbleed_missed_example :
    heartbleed (some (leaking_after (part_of_hello ∷ part_of_hello ∷ []))) ≡ some false
heartbleed_missed_example =
    heartbleed_missed (leaking_after (part_of_hello ∷ part_of_hello ∷ [])) part_of_hello
      part_of_hello [] refl refl refl (omega arith) (omega arith) (omega arith)

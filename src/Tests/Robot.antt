-- ===== src/Tests/Robot.antt =====
-- robot.go on concrete moduli and networks.
use tlsscan.Base.{
  ◌%◌, ◌*◌, ◌^◌, refl, [], List, false, length, ℕ, suc, Bool, true, ◌∷◌, Option, none, some,
  replicate, ◌≡◌, ◌↔◌, arith,
}
use native.Mathlib.Nat.{mod-lt}
use tlsscan.Wire.{Bytes}
use tlsscan.Reaction.{Reaction, plain, closed, timeout}
use tlsscan.Cbc.Stable.{Repeats}
use tlsscan.Robot.{
  RobotVectorKind, vec_correct, vec_wrong_first_bytes, vec_no_00, vec_00_in_padding,
  vec_00_at_wrong_pms_pos, wrong_version, build_pkcs1_vector, probe_robot,
}
use tlsscan.Robot.Vectors.{Decodes, vectors_decoded}
use tlsscan.Parse.{parse_leaf_rsa_key, leaf_certificate, leaf_at}
use tlsscan.Parse.Slice.{slice, read24}
use tlsscan.Net.{ok}
use tlsscan.Net.Full.{flat}
use tlsscan.Renegotiation.Reassembly.{records}
use tlsscan.Tests.Session.{frags-AreFragments, lib, server, frags, messages, messages-AreHandshakes}
use tlsscan.Robot.Exchange.{BigInt, modulus_len, rsa_encrypt}
use tlsscan.Robot.Flight.{read_server_hello_and_cert}
use tlsscan.Robot.Messages.{heard, unread}
use tlsscan.Robot.Coalesced.{read_server_hello_and_cert-heard}
use tlsscan.Robot.Size.{IsBigInt, length-rsa_encrypt}
use tlsscan.Robot.Panic.{build_panics}
use tlsscan.Robot.Decision.{Distinct, probe_robot_iff, malformed}

abbrev pms : Bytes
pms = 0x03 ∷ 0x03 ∷ replicate 46 0x5a

vectors_decoded_example :
    Decodes vec_correct 64 pms (some pms)
    × Decodes vec_wrong_first_bytes 64 pms none
    × Decodes vec_no_00 64 pms none
    × Decodes vec_00_in_padding 64 pms none
    × Decodes vec_00_at_wrong_pms_pos 64 pms (some (wrong_version pms))
vectors_decoded_example = vectors_decoded 64 pms (omega arith)

build_panics_example :
    (build_pkcs1_vector vec_correct 8 pms ≡ none)
    × (build_pkcs1_vector vec_00_at_wrong_pms_pos 8 pms ≡ none)
build_panics_example = build_panics 8 pms (omega arith)

abbrev discover : ℕ → Bool × ℕ
discover w = (true, suc w)

abbrev exchange : RobotVectorKind → ℕ → Option Reaction × ℕ
exchange vec_correct w = (some (plain closed), suc w)
exchange _ w = (some (plain timeout), suc w)

probe_robot_iff_example : (probe_robot discover exchange 0 ≡ (true, 11)) ↔ (
    (w₁ : ℕ) × (w₂ : ℕ) × (correct : Reaction) × (discover 0 ≡ (true, w₁))
    × Repeats exchange vec_correct w₁ correct w₂
    × Distinct discover exchange correct malformed w₂ 11)
probe_robot_iff_example = probe_robot_iff discover exchange 0 11

heard_messages :
    heard lib.rsa_key messages (record { hello = false; key = none })
    ≡ some (true, some (record { n = 3233; e = 17 }))
unfolding parse_leaf_rsa_key leaf_certificate leaf_at slice read24
heard_messages = refl

-- Arithmetic on one byte, with a modulus of one byte.
abbrev from_byte : Bytes → ℕ
from_byte [] = 0
from_byte (b ∷ bs) = b

abbrev tiny : BigInt
tiny = record {
  bit_len = λ n. 8 * n;
  set_bytes = from_byte;
  to_bytes = λ n. n ∷ [];
  exp = λ m e n. m ^ e % n;
}

tiny-IsBigInt : IsBigInt tiny
tiny-IsBigInt = record { reduces = λ m e n h. mod-lt (m ^ e) h; is_short = λ c n h. omega arith }

length-rsa_encrypt_example :
    length (rsa_encrypt tiny (record { n = 33; e = 3 }) (2 ∷ []))
    ≡ modulus_len tiny (record { n = 33; e = 3 })
length-rsa_encrypt_example =
    length-rsa_encrypt tiny (record { n = 33; e = 3 }) (2 ∷ []) tiny-IsBigInt (omega arith)

read_server_hello_and_cert-heard_example :
    (ps : List Bytes) × (read_server_hello_and_cert lib.rsa_key
        (record { peer = server; sent = []; inbound = records 0x0303 frags ∷ [] })
      ≡ (
        ok (true, some (record { n = 3233; e = 17 })),
        record { peer = server; sent = []; inbound = ps },
      ))
    × (unread messages ≡ [] → flat ps ≡ [])
read_server_hello_and_cert-heard_example =
    read_server_hello_and_cert-heard lib.rsa_key 0x0303 frags [] messages
      (record { peer = server; sent = []; inbound = records 0x0303 frags ∷ [] })
      (true, some (record { n = 3233; e = 17 })) frags-AreFragments messages-AreHandshakes
      (omega arith) (omega arith) refl refl heard_messages

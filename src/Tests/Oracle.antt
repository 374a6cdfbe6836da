-- ===== src/Tests/Oracle.antt =====
-- `ProbeROBOT` over a network, against a server that leaks what it decrypts.
use tlsscan.Base.{
  ℕ, zero, suc, ◌+◌, ◌*◌, ◌/◌, ◌%◌, ◌^◌, ◌-◌, true, not, ◌&&◌, List, [], ◌∷◌, some, drop, length,
  replicate, ◌==◌, ◌≡◌, refl, arith,
}
use mathlib.Core.Option.{some-injective}
use mathlib.Core.Path.{subst}
use tlsscan.Base.Text.{codes}
use tlsscan.Wire.{Bytes}
use tlsscan.Wire.Headers.{wrap_tls12_record}
use tlsscan.Net.{Peer}
use tlsscan.Reaction.{Reaction, alert, equal}
use tlsscan.Renegotiation.Reassembly.{records}
use tlsscan.Session.{RsaPublicKey}
use tlsscan.Parse.{parse_leaf_rsa_key, leaf_certificate, leaf_at}
use tlsscan.Parse.Slice.{slice, read24}
use tlsscan.Robot.{
  RobotVectorKind, vec_correct, vec_wrong_first_bytes, vec_no_00, vec_00_in_padding,
  vec_00_at_wrong_pms_pos, build_pkcs1_vector, header, set_at, fill, frame, copy_at,
  robot_client_key_exchange,
}
use tlsscan.Robot.Exchange.{BigInt, RobotLibrary, modulus_len, rsa_encrypt, new_pms, probe_robot_on}
use tlsscan.Robot.Vectors.{decode}
use tlsscan.Robot.Server.{ShowsKey}
use tlsscan.Robot.Oracle.{
  Finding, bad_block, wrong_pms, right_pms, examine, Decrypts, probe_robot_on-Decrypts,
}
use tlsscan.Tests.Session.{frags-AreFragments, frags, messages, messages-AreHandshakes}

-- The number of bits, of numbers below 2 ^ 600.
abbrev bits : ℕ → ℕ → ℕ
bits zero n = 0
bits (suc k) n = elim (n == 0) [ true ↦ 0 | _ ↦ suc (bits k (n / 2)) ]

abbrev from_bytes : ℕ → Bytes → ℕ
from_bytes n [] = n
from_bytes n (b ∷ bs) = from_bytes (n * 256 + b) bs

abbrev to_bytes : ℕ → Bytes → ℕ → Bytes
to_bytes zero bs n = bs
to_bytes (suc k) bs n = elim (n == 0) [ true ↦ bs | _ ↦ to_bytes k (n % 256 ∷ bs) (n / 256) ]

abbrev big : BigInt
big = record {
  bit_len = bits 600;
  set_bytes = from_bytes 0;
  to_bytes = to_bytes 80 [];
  exp = λ m e n. m ^ e % n;
}

-- A modulus of 60 bytes, with the exponent 1, so that a ciphertext is its block.
abbrev pub weak_key : RsaPublicKey
weak_key = record { n = 2 ^ 480 - 1; e = 1 }

abbrev pub robot_lib : RobotLibrary
robot_lib = record {
  big = big;
  rsa_key = λ der. some weak_key;
  random = λ n. some (replicate n 0x5a);
}

abbrev description : Finding → ℕ
description bad_block = 51
description wrong_pms = 40
description right_pms = 20

abbrev pub leaky : Finding → Reaction
leaky f = record { kind = alert; alert_level = 2; alert_desc = description f }

abbrev answers : List Bytes → List Bytes
answers (hello ∷ []) = records 0x0303 frags ∷ []
answers (hello ∷ exchange ∷ spec ∷ finished ∷ []) =
    (0x15 ∷ 3 ∷ 3 ∷ 0 ∷ 2 ∷ []) ∷ (2 ∷ description (examine (decode (drop 11 exchange))) ∷ []) ∷ []
answers _ = []

abbrev pub oracle : Peer
oracle = record {
  reply = answers;
  accepts = λ sent. true;
  fault = λ sent. record { timeout = true; message = codes "i/o timeout" };
}

abbrev pub site : Bytes
site = codes "example.com"

shows_key : ShowsKey robot_lib site oracle weak_key
unfolding parse_leaf_rsa_key leaf_certificate leaf_at slice read24
shows_key = record {
  takes = λ sent. refl;
  messages = messages;
  are_handshakes = messages-AreHandshakes;
  small = omega arith;
  says = refl;
  ends = refl;
  version = 0x0303;
  frags = frags;
  are_fragments = frags-AreFragments;
  few = omega arith;
  framed_in = refl;
  split = refl;
}

block_kept :
    (kind : RobotVectorKind) (block : Bytes)
    → build_pkcs1_vector kind (modulus_len big weak_key) (new_pms robot_lib) ≡ some block
    → rsa_encrypt big weak_key block ≡ block
unfolding build_pkcs1_vector header set_at fill frame copy_at new_pms rsa_encrypt
block_kept kind block h = go kind h
  where
    go :
        (k : RobotVectorKind)
        → build_pkcs1_vector k (modulus_len big weak_key) (new_pms robot_lib) ≡ some block
        → rsa_encrypt big weak_key block ≡ block
    go vec_correct e = subst (λ b. rsa_encrypt big weak_key b ≡ b) (some-injective _ _ e) refl
    go vec_wrong_first_bytes e =
        subst (λ b. rsa_encrypt big weak_key b ≡ b) (some-injective _ _ e) refl
    go vec_no_00 e = subst (λ b. rsa_encrypt big weak_key b ≡ b) (some-injective _ _ e) refl
    go vec_00_in_padding e = subst (λ b. rsa_encrypt big weak_key b ≡ b) (some-injective _ _ e) refl
    go vec_00_at_wrong_pms_pos e =
        subst (λ b. rsa_encrypt big weak_key b ≡ b) (some-injective _ _ e) refl

pub oracle-Decrypts :
    Decrypts (record { library = robot_lib; target = some oracle }) site weak_key (λ c. c) leaky
unfolding robot_client_key_exchange wrap_tls12_record
oracle-Decrypts = record {
  peer = oracle;
  reached = refl;
  shows = shows_key;
  room = omega arith;
  random_fills = λ r h. subst (λ b. length b ≡ 46) (some-injective _ _ h) refl;
  inverts = block_kept;
  judges = λ cipher. refl;
}

probe_robot_on-Decrypts_example :
    probe_robot_on (λ w. record { library = robot_lib; target = some oracle }) site ≡ (
      not (equal (leaky bad_block) (leaky right_pms))
      && not (equal (leaky wrong_pms) (leaky right_pms)))
probe_robot_on-Decrypts_example =
    probe_robot_on-Decrypts (λ w. record { library = robot_lib; target = some oracle }) site
      weak_key (λ c. c) leaky (λ w. oracle-Decrypts)

-- ===== src/Robot/Oracle.antt =====
-- internal/handshake/robot.go: `ProbeROBOT` over a network, against a server that decrypts the
-- ClientKeyExchange, decodes its padding, and reacts to what it finds.
use tlsscan.Base.{
  ℕ, suc, ◌+◌, ◌≤◌, Bool, true, false, not, ◌&&◌, ◌∷◌, Option, none, some, length, ◌==◌,
  if◌then◌else◌, ◌≡◌, ◌∙◌, refl, ap, arith,
}
use tlsscan.Wire.{Bytes}
use tlsscan.Net.{Peer}
use tlsscan.Reaction.{Reaction, equal}
use tlsscan.Session.{RsaPublicKey}
use tlsscan.Robot.{
  RobotVectorKind, vec_correct, vec_wrong_first_bytes, vec_no_00, vec_00_in_padding,
  vec_00_at_wrong_pms_pos, build_pkcs1_vector, probe_robot,
}
use tlsscan.Robot.Flight.{is_found}
use tlsscan.Robot.Steady.{all_differ, probe_robot-steady}
use tlsscan.Robot.Vectors.{decode, vectors_decoded}
use tlsscan.Robot.Exchange.{
  RobotLibrary, RobotAttempt, modulus_len, rsa_encrypt, or_zeros, new_pms, exchange_with,
  probe_robot_on, robot_exchange, robot_server_rsa_key,
}
use tlsscan.Robot.Server.{
  ShowsKey, answer_to, robot_server_rsa_key-ShowsKey, robot_exchange-ShowsKey,
}

-- What a server finds in a decrypted block: no valid padding; a premaster secret that is not one of
-- TLS 1.2; or one that is.
pub data Finding : Type 0 where
  bad_block wrong_pms right_pms : Finding

is_pms : Bytes → Bool
is_pms (a ∷ b ∷ rest) = a == 0x03 && b == 0x03 && length rest == 46
is_pms _ = false

unfoldable pub examine : Option Bytes → Finding
unfolding is_pms
examine none = bad_block
examine (some pms) = if is_pms pms then right_pms else wrong_pms

-- What a server finds in the five vectors.
abbrev pub found_in : RobotVectorKind → Finding
found_in vec_correct = right_pms
found_in vec_wrong_first_bytes = bad_block
found_in vec_no_00 = bad_block
found_in vec_00_in_padding = bad_block
found_in vec_00_at_wrong_pms_pos = wrong_pms

-- One use of the network, by a server whose reaction depends on the decrypted block alone, through
-- what it finds in it. That decryption inverts RSA encryption on the probe's blocks, and that
-- `rand.Read` fills its buffer, is what is relied on of the libraries.
pub record Decrypts (attempt : RobotAttempt) (host : Bytes) (key : RsaPublicKey)
    (opens : Bytes → Bytes) (reacts : Finding → Reaction) : Type 0 where
  pub peer : Peer
  pub reached : attempt.target ≡ some peer
  pub shows : ShowsKey attempt.library host peer key
  pub room : 59 ≤ modulus_len attempt.library.big key
  pub random_fills : (r : Bytes) → attempt.library.random 46 ≡ some r → length r ≡ 46
  pub inverts :
      (kind : RobotVectorKind) (block : Bytes)
      → build_pkcs1_vector kind (modulus_len attempt.library.big key) (new_pms attempt.library)
        ≡ some block
      → opens (rsa_encrypt attempt.library.big key block) ≡ block
  pub judges :
      (cipher : Bytes)
      → answer_to attempt.library host peer cipher ≡ reacts (examine (decode (opens cipher)))

length-or_zeros :
    (r : Option Bytes) → ((b : Bytes) → r ≡ some b → length b ≡ 46) → length (or_zeros r) ≡ 46
length-or_zeros none h = refl
length-or_zeros (some b) h = h b refl

examine-right : (r : Bytes) → length r ≡ 46 → examine (some (0x03 ∷ 0x03 ∷ r)) ≡ right_pms
unfolding examine
examine-right r h = ground arith

module _ {attempt : RobotAttempt} {host : Bytes} {key : RsaPublicKey} {opens : Bytes → Bytes}
    {reacts : Finding → Reaction} (d : Decrypts attempt host key opens reacts) where
  abbrev lib : RobotLibrary
  lib = attempt.library

  -- The block of a vector, and what the server finds in it.
  block_found :
      (kind : RobotVectorKind)
      → (b : Bytes) × (build_pkcs1_vector kind (modulus_len lib.big key) (new_pms lib) ≡ some b)
        × (examine (decode b) ≡ found_in kind)
  unfolding new_pms examine
  block_found kind = go kind
    where
      random : Bytes
      random = or_zeros (lib.random 46)

      enough : length random ≡ 46
      enough = length-or_zeros (lib.random 46) d.random_fills

      pms : Bytes
      pms = 0x03 ∷ 0x03 ∷ random

      fits : length pms + 11 ≤ modulus_len lib.big key
      fits = let r = d.room in omega (arith, enough)

      go :
          (kind : RobotVectorKind)
          → (b : Bytes) × (build_pkcs1_vector kind (modulus_len lib.big key) pms ≡ some b)
            × (examine (decode b) ≡ found_in kind)
      go vec_correct =
          let (b, e, n, f) = (vectors_decoded (modulus_len lib.big key) pms fits).0 in
          (b, e, ap examine f ∙ examine-right random enough)
      go vec_wrong_first_bytes =
          let (b, e, n, f) = (vectors_decoded (modulus_len lib.big key) pms fits).1 in
          (b, e, ap examine f)
      go vec_no_00 =
          let (b, e, n, f) = (vectors_decoded (modulus_len lib.big key) pms fits).2 in
          (b, e, ap examine f)
      go vec_00_in_padding =
          let (b, e, n, f) = (vectors_decoded (modulus_len lib.big key) pms fits).3 in
          (b, e, ap examine f)
      go vec_00_at_wrong_pms_pos =
          let (b, e, n, f) = (vectors_decoded (modulus_len lib.big key) pms fits).4 in
          (b, e, ap examine f)

  exchange_found :
      (kind : RobotVectorKind)
      → robot_exchange attempt.library host key kind attempt.target ≡ some (reacts (found_in kind))
  exchange_found kind =
      let (b, built, found) = block_found kind in
      rw d.reached (
        robot_exchange-ShowsKey lib host d.peer d.shows kind b built
        ∙ ap some (
            d.judges (rsa_encrypt lib.big key b)
            ∙ ap (λ x. reacts (examine (decode x))) (d.inverts kind b built)
            ∙ ap reacts found))

  key_found : robot_server_rsa_key attempt.library host attempt.target ≡ some key
  key_found = rw d.reached (robot_server_rsa_key-ShowsKey lib host d.peer d.shows)

-- Take a network on which every connection reaches a server that shows the same RSA key, of 59
-- bytes at least, and whose reaction to a ClientKeyExchange depends on what it decrypts alone,
-- through what it finds there: no valid padding, a wrong premaster secret, or a right one. In any
-- records and packets, `ProbeROBOT` reports an oracle exactly if the server tells a right secret
-- both from invalid padding and from a wrong secret.
pub probe_robot_on-Decrypts :
    (network : ℕ → RobotAttempt) (host : Bytes) (key : RsaPublicKey) (opens : Bytes → Bytes)
    (reacts : Finding → Reaction)
    → ((w : ℕ) → Decrypts (network w) host key opens reacts)
    → probe_robot_on network host ≡ (
        not (equal (reacts bad_block) (reacts right_pms))
        && not (equal (reacts wrong_pms) (reacts right_pms)))
unfolding probe_robot_on exchange_with all_differ
probe_robot_on-Decrypts network host key opens reacts each =
    ap (λ k. (probe_robot (λ w. (is_found k, suc w)) (exchange_with network host k) 0).0)
      (key_found (each 0))
    ∙ probe_robot-steady (λ w. (true, suc w)) (exchange_with network host (some key))
        (λ kind. reacts (found_in kind))
        (λ kind w. ap (λ r. (r, suc w)) (exchange_found (each w) kind)) 0 1 refl
    ∙ twice_more (equal (reacts bad_block) (reacts right_pms))
        (equal (reacts wrong_pms) (reacts right_pms))
  where
    twice_more : (a b : Bool) → (not a && (not a && (not a && (not b && true)))) ≡ (not a && not b)
    twice_more true b = refl
    twice_more false true = refl
    twice_more false false = refl

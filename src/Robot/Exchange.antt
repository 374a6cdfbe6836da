-- ===== src/Robot/Exchange.antt =====
-- internal/handshake/robot.go: `rsaEncrypt`, `newPMS`, `robotServerRSAKey` and `robotExchange`, and
-- `ProbeROBOT` over a network. math/big, x509 and the random bytes are the record `RobotLibrary`.
use tlsscan.Base.{
  ℕ, suc, ◌+◌, ◌-◌, ◌/◌, Bool, ◌&&◌, ◌∷◌, ◌++◌, Option, none, some, length, replicate, ltb,
  if◌then◌else◌,
}
use tlsscan.Wire.{Bytes}
use tlsscan.Wire.Hello.{robot_client_hello}
use tlsscan.Net.{Peer, Conn, Result, ok, err, Io, ◌>>=◌, ◌>>◌, pure, dial}
use tlsscan.Reaction.{Reaction, read_robot_response}
use tlsscan.Session.{RsaPublicKey, need, need_true, send}
use tlsscan.Robot.{
  RobotVectorKind, build_pkcs1_vector, robot_client_key_exchange, robot_change_cipher_spec,
  robot_bogus_finished, probe_robot,
}
use tlsscan.Robot.Flight.{is_found, read_server_hello_and_cert}

-- Of `big.Int`: `BitLen`, `SetBytes`, `Bytes` and `Exp`, on numbers that are not negative.
pub record BigInt : Type 0 where
  pub bit_len : ℕ → ℕ
  pub set_bytes : Bytes → ℕ
  pub to_bytes : ℕ → Bytes
  pub exp : ℕ → ℕ → ℕ → ℕ

pub record RobotLibrary : Type 0 where
  pub big : BigInt
  pub rsa_key : Bytes → Option RsaPublicKey
  pub random : ℕ → Option Bytes

-- `(pub.N.BitLen() + 7) / 8`.
abbrev pub modulus_len : BigInt → RsaPublicKey → ℕ
modulus_len big key = (big.bit_len key.n + 7) / 8

unfoldable pub rsa_encrypt : BigInt → RsaPublicKey → Bytes → Bytes
rsa_encrypt big key block =
    let k = modulus_len big key in
    let out = big.to_bytes (big.exp (big.set_bytes block) key.e key.n) in
    if ltb (length out) k then replicate (k - length out) 0 ++ out else out

-- The error of `rand.Read` is dropped: the body stays zero.
abbrev pub or_zeros : Option Bytes → Bytes
or_zeros none = replicate 46 0
or_zeros (some r) = r

unfoldable pub new_pms : RobotLibrary → Bytes
new_pms lib = 0x03 ∷ 0x03 ∷ or_zeros (lib.random 46)

abbrev pub or_none : {A : Type 0} → Result (Option A) × Conn → Option A
or_none (ok a, c) = a
or_none (err e, c) = none

abbrev pub returned : {A : Type 0} → Result A × Conn → Option A
returned (ok a, c) = some a
returned (err e, c) = none

module _ (lib : RobotLibrary) (host : Bytes) where
  abbrev pub key_of : Bool × Option RsaPublicKey → Io (Option RsaPublicKey)
  key_of (seen_all, key) = pure key

  abbrev pub discover_key : Io (Option RsaPublicKey)
  discover_key =
      send (robot_client_hello host) >> (read_server_hello_and_cert lib.rsa_key >>= key_of)

  unfoldable pub robot_server_rsa_key : Option Peer → Option RsaPublicKey
  robot_server_rsa_key target = elim (dial target) [
    | none ↦ none
    | some c ↦ or_none (discover_key c)
  ]

  abbrev pub react : Io Reaction
  react c = (ok (read_robot_response c).0, (read_robot_response c).1)

  -- The three crafted messages and the reaction. A panic while the vector is built is `none`.
  abbrev pub react_to : Bytes → Io Reaction
  react_to cipher =
      send (robot_client_key_exchange cipher)
      >> (send robot_change_cipher_spec >> (send robot_bogus_finished >> react))

  abbrev pub flight_read : RsaPublicKey → RobotVectorKind → Bool × Option RsaPublicKey → Io Reaction
  flight_read key kind (seen_all, key') =
      need_true (is_found key' && seen_all)
      >> (need (build_pkcs1_vector kind (modulus_len lib.big key) (new_pms lib)) >>= λ block.
          react_to (rsa_encrypt lib.big key block))

  abbrev pub crafted_exchange : RsaPublicKey → RobotVectorKind → Io Reaction
  crafted_exchange key kind =
      send (robot_client_hello host)
      >> (read_server_hello_and_cert lib.rsa_key >>= flight_read key kind)

  unfoldable pub robot_exchange : RsaPublicKey → RobotVectorKind → Option Peer → Option Reaction
  robot_exchange key kind target = elim (dial target) [
    | none ↦ none
    | some c ↦ returned (crafted_exchange key kind c)
  ]

-- One use of the network: the library, with its random bytes, and who answers.
pub record RobotAttempt : Type 0 where
  pub library : RobotLibrary
  pub target : Option Peer

-- The `w`-th connection is the `w`-th attempt of the network. The first one finds the key.
module _ (network : ℕ → RobotAttempt) (host : Bytes) where
  abbrev pub network_key : Option RsaPublicKey
  network_key = robot_server_rsa_key (network 0).library host (network 0).target

  unfoldable pub exchange_with : Option RsaPublicKey → RobotVectorKind → ℕ → Option Reaction × ℕ
  exchange_with none kind w = (none, w)
  exchange_with (some key) kind w =
      (robot_exchange (network w).library host key kind (network w).target, suc w)

  unfoldable pub probe_robot_on : Bool
  probe_robot_on =
      (probe_robot (λ w. (is_found network_key, suc w)) (exchange_with network_key) 0).0

-- ===== src/Tests/Cbc.antt =====
-- cbc.go and cbc_oracle.go on a concrete session, with stand-ins for the primitives.
use tlsscan.Base.{
  ℕ, zero, suc, Bool, true, ◌↔◌, [], Option, some, length, replicate, take, ◌≡◌, ◌≢◌, refl, arith,
}
use tlsscan.Base.Text.{codes}
use tlsscan.Wire.{Bytes}
use tlsscan.Net.{Peer}
use tlsscan.Reaction.{Reaction, plain, closed, timeout}
use tlsscan.Cbc.{Crypto, CbcSession}
use tlsscan.Cbc.Prf.{IsSha256, p_blocks, p_hash_sha256, p_hash_sha256_lem}
use tlsscan.Cbc.Padding.{bad_padding}
use tlsscan.Cbc.Flipped.{AreBytes}
use tlsscan.Cbc.Stimuli.{IsSha1, receive-ne-bad_padding}
use tlsscan.Cbc.Oracle.{CbcVector, vec_bad_pad, probe_cbc_padding_oracles}
use tlsscan.Cbc.Decision.{flagged, Evidence, probe_cbc_iff}
use tlsscan.Cbc.FalseAlarm.{seen}

-- A digest of 20 zeros stands in for HMAC-SHA1.
abbrev zero_crypto : Crypto
zero_crypto = record {
  hmac_sha1 = λ key message. replicate 20 0;
  encrypt = λ key iv plain. some plain;
  random = λ n. some (replicate n 0);
}

zero_crypto-IsSha1 : IsSha1 zero_crypto
zero_crypto-IsSha1 key message = (refl, zeros 20)
  where
    zeros : (n : ℕ) → AreBytes (replicate n 0)
    zeros zero = tt
    zeros (suc n) = (omega arith, zeros n)

abbrev silent : Peer
silent = record {
  reply = λ sent. [];
  accepts = λ sent. true;
  fault = λ sent. record { timeout = true; message = codes "i/o timeout" };
}

abbrev session : CbcSession
session = record {
  conn = record { peer = silent; sent = []; inbound = [] };
  params = record { key_len = 16; mac_len = 20; iv_len = 16; ecdhe = true };
  client_write_key = replicate 16 1;
  server_write_key = replicate 16 2;
  client_write_mac = replicate 20 3;
  server_write_mac = replicate 20 4;
  client_seq = 1;
  server_seq = 1;
}

abbrev host_15 : Bytes
host_15 = codes "www.example.com"

receive-ne-bad_padding_example : seen zero_crypto session vec_bad_pad host_15 ≢ bad_padding
receive-ne-bad_padding_example =
    receive-ne-bad_padding zero_crypto zero_crypto-IsSha1 session 0x17 refl vec_bad_pad host_15

-- An exchange on a network whose state is the number of exchanges so far.
abbrev exchange : CbcVector → ℕ → Option Reaction × ℕ
exchange vec_bad_pad w = (some (plain timeout), suc w)
exchange _ w = (some (plain closed), suc w)

abbrev establish : ℕ → Bool × ℕ
establish w = (true, suc w)

-- It tells bad padding apart.
probe_cbc_iff_example :
    (flagged (probe_cbc_padding_oracles establish exchange 0).0 ≡ true)
    ↔ Evidence establish exchange 0
probe_cbc_iff_example = probe_cbc_iff establish exchange 0

abbrev zero_hmac : Bytes → Bytes → Bytes
zero_hmac key message = replicate 32 0

zero_hmac-IsSha256 : IsSha256 zero_hmac
zero_hmac-IsSha256 key message = refl

p_hash_sha256_lem_example :
    (p_hash_sha256 zero_hmac (codes "secret") (codes "seed") 104
      ≡ take 104 (p_blocks zero_hmac 4 (codes "secret") (codes "seed") (codes "seed")))
    × (length (p_hash_sha256 zero_hmac (codes "secret") (codes "seed") 104) ≡ 104)
p_hash_sha256_lem_example =
    p_hash_sha256_lem zero_hmac zero_hmac-IsSha256 4 (codes "secret") (codes "seed") 104
      (omega arith)

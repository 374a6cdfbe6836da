-- ===== src/Session/Keys.antt =====
-- internal/handshake/cbc.go: the master secret, the key block and the session in
-- `establishCBCSession`.
use tlsscan.Base.{◌+◌, ◌*◌, ◌++◌, take, drop}
use tlsscan.Base.Text.{codes}
use tlsscan.Wire.{Bytes}
use tlsscan.Net.{Conn}
use tlsscan.Cbc.{CbcCipherParams, CbcSession}
use tlsscan.Cbc.Prf.{prf12}

module _ (hmac_sha256 : Bytes → Bytes → Bytes) where
  unfoldable pub master_secret : Bytes → Bytes → Bytes → Bytes
  master_secret premaster client_random server_random =
      prf12 hmac_sha256 premaster (codes "master secret") (client_random ++ server_random) 48

  unfoldable pub key_block : CbcCipherParams → Bytes → Bytes → Bytes → Bytes
  key_block params master client_random server_random =
      prf12 hmac_sha256 master (codes "key expansion") (server_random ++ client_random)
        (2 * params.mac_len + 2 * params.key_len)

  unfoldable pub verify_data : Bytes → Bytes → Bytes
  verify_data master transcript_hash =
      prf12 hmac_sha256 master (codes "client finished") transcript_hash 12

-- The four slices of the key block, one behind the other.
unfoldable pub new_session : Conn → CbcCipherParams → Bytes → CbcSession
new_session conn params block = record {
  conn = conn;
  params = params;
  client_write_mac = take params.mac_len block;
  server_write_mac = take params.mac_len (drop params.mac_len block);
  client_write_key = take params.key_len (drop (params.mac_len + params.mac_len) block);
  server_write_key =
      take params.key_len (drop (params.mac_len + params.mac_len + params.key_len) block);
  client_seq = 0;
  server_seq = 0;
}

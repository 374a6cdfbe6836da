-- ===== src/Net/Step.antt =====
-- One write and one read on a connection to a peer.
use tlsscan.Base.{ℕ, ◌≤◌, true, List, [], ◌∷◌, ◌++◌, length, leb, ◌≡◌, arith}
use tlsscan.Wire.{Bytes}
use tlsscan.Net.{Peer, Conn, ok, read_packets, read, write}

-- The connection to a peer that has been sent `sent`, with the packets `ps` waiting.
abbrev pub with_packets : Peer → List Bytes → List Bytes → Conn
with_packets peer sent ps = record { peer = peer; sent = sent; inbound = ps }

pub write_accepted :
    (peer : Peer) (sent ps : List Bytes) (b : Bytes)
    → peer.accepts (sent ++ b ∷ []) ≡ true
    → write b (with_packets peer sent ps)
      ≡ (true, with_packets peer (sent ++ b ∷ []) (ps ++ peer.reply (sent ++ b ∷ [])))
unfolding write
write_accepted peer sent ps b h = rw h

pub read_whole :
    (n : ℕ) (peer : Peer) (sent : List Bytes) (p : Bytes) (ps : List Bytes)
    → length p ≤ n
    → read n (with_packets peer sent (p ∷ ps)) ≡ (ok p, with_packets peer sent ps)
unfolding read read_packets
read_whole n peer sent p ps h = let e : leb (length p) n ≡ true = ground arith in rw e

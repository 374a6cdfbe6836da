-- ===== src/Session/Taken.antt =====
-- `conn.Write` on a connection to a peer that takes every message.
use tlsscan.Base.{true, List, [], ◌∷◌, ◌++◌, ◌≡◌, refl}
use tlsscan.Wire.{Bytes}
use tlsscan.Net.{Peer, ok}
use tlsscan.Net.Step.{with_packets, write_accepted}
use tlsscan.Session.{send}

abbrev pub TakesAll : Peer → Type 0
TakesAll peer = (sent : List Bytes) → peer.accepts sent ≡ true

pub send_taken :
    (peer : Peer)
    → TakesAll peer
    → (sent ps : List Bytes) (b : Bytes)
    → send b (with_packets peer sent ps)
      ≡ (ok tt, with_packets peer (sent ++ b ∷ []) (ps ++ peer.reply (sent ++ b ∷ [])))
send_taken peer takes sent ps b = rw (write_accepted peer sent ps b (takes (sent ++ b ∷ []))) refl

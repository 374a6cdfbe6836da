-- ===== src/Session/Crafted.antt =====
-- internal/handshake/cbc.go: `sendCrafted` and `readReaction` in a session with a server that takes
-- the crafted record.
use tlsscan.Base.{Bool, List, [], ◌∷◌, ◌++◌, some, ◌≡◌, ◌∙◌, refl, ap}
use tlsscan.Base.Int.{ℤ}
use tlsscan.Wire.{Bytes}
use tlsscan.Wire.Headers.{record_application_data, wrap_tls12_record}
use tlsscan.Net.{Peer, write}
use tlsscan.Net.Full.{flat, flat-append}
use tlsscan.Net.Step.{with_packets, write_accepted}
use tlsscan.Reaction.{Reaction}
use tlsscan.Reaction.Stream.{cbc_reaction, read_reaction_lem}
use tlsscan.Cbc.{
  Crypto, CbcSession, align, deliver, sent_record, mac_then_pad, encrypt_record, send_crafted,
}
use tlsscan.Session.{Library}
use tlsscan.Session.Establish.{reaction_of}
use tlsscan.Session.Taken.{TakesAll}

module _ (crypto : Crypto) (s : CbcSession) (content : Bytes) (force_bad_mac : Bool)
    (pad_override : ℤ) where
  -- What is encrypted.
  abbrev pub plaintext : Bytes
  plaintext =
      align s.params.iv_len
        (mac_then_pad crypto s record_application_data content force_bad_mac pad_override)

  crafted_record :
      (iv ct : Bytes)
      → crypto.random s.params.iv_len ≡ some iv
      → crypto.encrypt s.client_write_key iv plaintext ≡ some ct
      → encrypt_record crypto s record_application_data
          (mac_then_pad crypto s record_application_data content force_bad_mac pad_override)
        ≡ some (wrap_tls12_record record_application_data (iv ++ ct))
  unfolding encrypt_record
  crafted_record iv ct r e = rw (r, encrypt_record) (rw e refl)

-- How the probe sees the answer of a peer to its latest message.
abbrev pub answered : Peer → List Bytes → Reaction
answered peer sent = cbc_reaction (flat (peer.reply sent)) (peer.fault sent)

-- The reaction to a crafted record, on a connection where nothing waits, is the one to the
-- encrypted record.
pub send_crafted-reaction :
    (lib : Library) (s : CbcSession) (peer : Peer) (sent ps : List Bytes) (content : Bytes)
    (force_bad_mac : Bool) (pad_override : ℤ) (iv ct : Bytes)
    → s.conn ≡ with_packets peer sent ps
    → TakesAll peer
    → flat ps ≡ []
    → lib.crypto.random s.params.iv_len ≡ some iv
    → lib.crypto.encrypt s.client_write_key iv
        (plaintext lib.crypto s content force_bad_mac pad_override)
      ≡ some ct
    → reaction_of lib (send_crafted lib.crypto s content force_bad_mac pad_override)
      ≡ some (answered peer (sent ++ wrap_tls12_record record_application_data (iv ++ ct) ∷ []))
unfolding send_crafted
send_crafted-reaction lib s peer sent ps content force pad iv ct conn takes empty r e =
    let rec = wrap_tls12_record record_application_data (iv ++ ct) in
    let sent' = sent ++ rec ∷ [] in
    let stream : flat (ps ++ peer.reply sent') ≡ flat (peer.reply sent') =
      flat-append ps (peer.reply sent') ∙ rw empty refl in
    ap (λ x. reaction_of lib (sent_record s x))
      (crafted_record lib.crypto s content force pad iv ct r e)
    ∙ ap (λ c. reaction_of lib (deliver s (write rec c))) conn
    ∙ ap (λ x. reaction_of lib (deliver s x)) (write_accepted peer sent ps rec (takes sent'))
    ∙ ap some (read_reaction_lem (with_packets peer sent' (ps ++ peer.reply sent')))
    ∙ ap (λ x. some (cbc_reaction x (peer.fault sent'))) stream

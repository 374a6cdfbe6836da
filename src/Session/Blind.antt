-- ===== src/Session/Blind.antt =====
-- internal/handshake/cbc_oracle.go: what `ProbeCBCPaddingOracles` reports of a server that decrypts the
-- crafted records, on a whole network.
use tlsscan.Base.{ℕ, suc, ◌%◌, true, false, some, length, ◌≡◌, ◌≢◌, ◌∙◌, refl, ap}
use tlsscan.Wire.{Bytes}
use tlsscan.Wire.Headers.{record_application_data}
use tlsscan.Reaction.{Reaction, equal}
use tlsscan.Reaction.Laws.{equal_refl}
use tlsscan.Cbc.Padding.{Reception, bad_padding, bad_mac, accepted}
use tlsscan.Cbc.Oracle.{
  CbcVector, vec_bad_mac, vec_bad_pad, vec_zero_len, request, all_false, classify_cbc, applicable,
  with_bad_mac, with_bad_pad, with_zero_len, probe_cbc_padding_oracles,
}
use tlsscan.Cbc.Stable.{stable-steady}
use tlsscan.Cbc.Stimuli.{receive-vec_bad_mac, receive-vec_bad_pad, receive-ne-bad_padding}
use tlsscan.Cbc.FalseAlarm.{seen, whole_blocks}
use tlsscan.Session.Keys.{new_session}
use tlsscan.Session.Establish.{Attempt, session_possible, exchange_on, probe_cbc}
use tlsscan.Session.Receives.{Receives, session, session_established, exchange_received}

module _ (network : ℕ → Attempt) (host : Bytes) (reacts : Reception → Reaction)
    (each : (w : ℕ) → Receives (network w) host reacts) where
  -- What the server of the `w`-th connection receives.
  abbrev pub received : ℕ → CbcVector → Reception
  received w vec = seen (network w).library.crypto (session (each w)) vec (request host)

  -- Three reactions, each to its vector on every connection, are what is classified.
  probe_cbc_lem :
      (m p z : Reaction)
      → ((w : ℕ) → reacts (received w vec_bad_mac) ≡ m)
      → ((w : ℕ) → reacts (received w vec_bad_pad) ≡ p)
      → ((w : ℕ) → reacts (received w vec_zero_len) ≡ z)
      → probe_cbc network host ≡ classify_cbc m p z
  unfolding probe_cbc probe_cbc_padding_oracles applicable with_bad_mac with_bad_pad with_zero_len
      session_possible exchange_on
  probe_cbc_lem m p z hm hp hz =
      ap (λ b. (applicable (session_possible network host) (exchange_on network host) (b, 1)).0)
        (session_established (each 0))
      ∙ ap (λ r. (with_bad_mac (session_possible network host) (exchange_on network host) r).0)
          (stable-steady (exchange_on network host) vec_bad_mac m
            (λ w. ap (λ r. (r, suc w)) (exchange_received (each w) vec_bad_mac ∙ ap some (hm w))) 1)
      ∙ ap (λ r. (with_bad_pad (session_possible network host) (exchange_on network host) m r).0)
          (stable-steady (exchange_on network host) vec_bad_pad p
            (λ w. ap (λ r. (r, suc w)) (exchange_received (each w) vec_bad_pad ∙ ap some (hp w))) 3)
      ∙ ap (λ r. (with_zero_len (session_possible network host) (exchange_on network host) m p r).0)
          (stable-steady (exchange_on network host) vec_zero_len z
            (λ w. ap (λ r. (r, suc w)) (exchange_received (each w) vec_zero_len ∙ ap some (hz w)))
            5)

  aes : (w : ℕ) → (session (each w)).params.iv_len ≡ 16
  unfolding new_session
  aes w = (each w).aes

  received-bad_mac : (w : ℕ) → received w vec_bad_mac ≡ bad_mac
  received-bad_mac w =
      receive-vec_bad_mac (network w).library.crypto (each w).sha1 (session (each w))
        record_application_data (aes w) (request host)

  only_bad_mac :
      (r : Reception) → r ≢ bad_padding → ((content : Bytes) → r ≢ accepted content) → r ≡ bad_mac
  only_bad_mac bad_padding p a = absurd (p refl)
  only_bad_mac bad_mac p a = refl
  only_bad_mac (accepted content) p a = absurd (a content refl)

  refused :
      (w : ℕ) (vec : CbcVector)
      → ((content : Bytes) → received w vec ≢ accepted content)
      → received w vec ≡ bad_mac
  refused w vec = only_bad_mac (received w vec) (
      receive-ne-bad_padding (network w).library.crypto (each w).sha1 (session (each w))
        record_application_data (aes w) vec (request host))

  classify_cbc_same : (r : Reaction) → classify_cbc r r r ≡ all_false
  unfolding classify_cbc
  classify_cbc_same r = rw (equal_refl r)

  -- Take a network on which every connection reaches a server that follows the handshake, with AES
  -- and SHA-1, and whose reaction to a record depends alone on what it receives in it. If it
  -- accepts neither the bad-padding nor the zero-length record, `ProbeCBCPaddingOracles` reports
  -- nothing, also where its reaction to invalid padding differs from the one to a bad MAC.
  pub probe_cbc_blind :
      ((w : ℕ) (content : Bytes) → received w vec_bad_pad ≢ accepted content)
      → ((w : ℕ) (content : Bytes) → received w vec_zero_len ≢ accepted content)
      → probe_cbc network host ≡ all_false
  probe_cbc_blind pad zero =
      probe_cbc_lem (reacts bad_mac) (reacts bad_mac) (reacts bad_mac)
        (λ w. ap reacts (received-bad_mac w)) (λ w. ap reacts (refused w vec_bad_pad (pad w)))
        (λ w. ap reacts (refused w vec_zero_len (zero w)))
      ∙ classify_cbc_same (reacts bad_mac)

  received-bad_pad :
      (w : ℕ) → length host % 16 ≡ 15 → received w vec_bad_pad ≡ accepted (request host)
  received-bad_pad w h =
      receive-vec_bad_pad (network w).library.crypto (each w).sha1 (session (each w))
        record_application_data (aes w) (request host) (whole_blocks host h)

  classify_cbc_golden :
      (m p z : Reaction) → equal m p ≡ false → (classify_cbc m p z).golden_doodle ≡ true
  unfolding classify_cbc
  classify_cbc_golden m p z h = rw h refl

  -- Take a network on which every connection reaches a server that follows the handshake, with AES
  -- and SHA-1, and whose reaction to a record depends alone on what it receives in it. If the host
  -- name has 15, 31, 47, … bytes, as `www.example.com`, and the server reacts to the request
  -- otherwise than to a bad MAC, and to the zero-length record always alike,
  -- `ProbeCBCPaddingOracles` reports GOLDENDOODLE, whatever the reaction to invalid padding.
  pub probe_cbc-false_alarm :
      (zero_len : Reaction)
      → ((w : ℕ) → reacts (received w vec_zero_len) ≡ zero_len)
      → length host % 16 ≡ 15
      → equal (reacts bad_mac) (reacts (accepted (request host))) ≡ false
      → (probe_cbc network host).golden_doodle ≡ true
  probe_cbc-false_alarm zero_len hz h differ =
      ap (λ r. r.golden_doodle)
        (probe_cbc_lem (reacts bad_mac) (reacts (accepted (request host))) zero_len
          (λ w. ap reacts (received-bad_mac w)) (λ w. ap reacts (received-bad_pad w h)) hz)
      ∙ classify_cbc_golden (reacts bad_mac) (reacts (accepted (request host))) zero_len differ

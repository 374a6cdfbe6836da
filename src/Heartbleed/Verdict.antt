-- ===== src/Heartbleed/Verdict.antt =====
-- internal/vulns/heartbleed.go: the verdict of the Heartbleed probe.
use tlsscan.Base.{
  ℕ, ◌≤◌, Bool, true, false, ◌&&◌, [], ◌∷◌, ◌++◌, List, some, length, take, ltb, leb, ◌==◌, ◌≡◌,
  ◌≢◌, ◌∙◌, ap, arith, inl, inr, Bool-cases, leb→le,
}
use tlsscan.Wire.{Bytes}
use tlsscan.Wire.Headers.{record_heartbeat}
use tlsscan.Wire.Hello.{client_hello_with_heartbeat, malicious_heartbeat}
use tlsscan.Net.{Peer, Conn, after, dial, read}
use tlsscan.Net.Full.{flat-append, flat, skip, read_full_lem}
use tlsscan.Net.Step.{with_packets, write_accepted, read_whole}
use tlsscan.Net.Record.{header_fields}
use tlsscan.Probe.{or_else, first_byte}
use tlsscan.Heartbleed.{
  drained, drain_handshake, judge, read_heartbeat_response, after_heartbeat, after_drain,
  after_hello, heartbleed,
}

-- The bytes begin with the header of a heartbeat record of more than 16 bytes.
abbrev pub leaks : Bytes → Bool
leaks s =
    let h = header_fields (take 5 s) in
    leb 5 (length s) && ((h.0 == record_heartbeat) && ltb 16 h.2)

judge-leaks :
    (c : Conn) (h : ℕ × ℕ × ℕ)
    → or_else false (judge h c) ≡ ((h.0 == record_heartbeat) && ltb 16 h.2)
judge-leaks c h = ground arith

response_lem : (c : Conn) → or_else false (read_heartbeat_response c) ≡ leaks (flat c.inbound)
unfolding read_heartbeat_response
response_lem c = elim (Bool-cases (leb 5 (length (flat c.inbound)))) [
  | inl e ↦
      ap (λ r. or_else false (after r (λ h. judge (header_fields h))))
        ((read_full_lem 5 c).0 (leb→le _ _ e))
      ∙ rw e (
          judge-leaks (record c { inbound = skip 5 c.inbound })
            (header_fields (take 5 (flat c.inbound))))
  | inr e ↦
      ap (λ r. or_else false (after r (λ h. judge (header_fields h))))
        ((read_full_lem 5 c).1 (ground arith))
      ∙ rw e
]

-- Against a server that takes both messages and whose answer to the first one begins with a packet
-- of at most 4096 bytes, the probe has a verdict: whether the rest of that answer, followed by the
-- answer to the heartbeat, begins with a heartbeat record of more than 16 bytes.
pub heartbleed_lem :
    (peer : Peer) (first : Bytes) (rest : List Bytes)
    → let hello = client_hello_with_heartbeat ∷ [] in
      let both = client_hello_with_heartbeat ∷ malicious_heartbeat ∷ [] in
      peer.accepts hello ≡ true
      → peer.accepts both ≡ true
      → peer.reply hello ≡ first ∷ rest
      → length first ≤ 4096
      → heartbleed (some peer) ≡ some (leaks (flat rest ++ flat (peer.reply both)))
unfolding heartbleed after_hello after_drain after_heartbeat drain_handshake drained dial
heartbleed_lem peer first rest h b e small =
    let hello : List Bytes = client_hello_with_heartbeat ∷ [] in
    let both : List Bytes = client_hello_with_heartbeat ∷ malicious_heartbeat ∷ [] in
    let waiting = with_packets peer both (rest ++ peer.reply both) in
    ap after_hello (write_accepted peer [] [] client_hello_with_heartbeat h)
    ∙ ap (λ q. after_drain (drained (read 4096 (with_packets peer hello q)))) e
    ∙ ap (λ r. after_drain (drained r)) (read_whole 4096 peer hello first rest small)
    ∙ ap after_heartbeat (write_accepted peer hello rest malicious_heartbeat b)
    ∙ ap some (response_lem waiting ∙ ap leaks (flat-append rest (peer.reply both)))

no_leak :
    (bs more last : Bytes)
    → 5 ≤ length bs
    → first_byte bs ≢ record_heartbeat
    → leaks ((bs ++ more) ++ last) ≡ false
no_leak [] more last h k = absurd (omega arith)
no_leak (t ∷ []) more last h k = absurd (omega arith)
no_leak (t ∷ v ∷ []) more last h k = absurd (omega arith)
no_leak (t ∷ v ∷ w ∷ []) more last h k = absurd (omega arith)
no_leak (t ∷ v ∷ w ∷ l ∷ []) more last h k = absurd (omega arith)
no_leak (t ∷ v ∷ w ∷ l ∷ m ∷ bs) more last h k = ground arith

-- A server that takes both messages, whose answer to the hello begins with a packet of at most
-- 4096 bytes and has a second packet of at least 5 bytes that does not begin with the type of a
-- heartbeat record, is reported as not vulnerable, whatever it sends in answer to the heartbeat.
pub heartbleed_missed :
    (peer : Peer) (first second : Bytes) (rest : List Bytes)
    → let hello = client_hello_with_heartbeat ∷ [] in
      let both = client_hello_with_heartbeat ∷ malicious_heartbeat ∷ [] in
      peer.accepts hello ≡ true
      → peer.accepts both ≡ true
      → peer.reply hello ≡ first ∷ second ∷ rest
      → length first ≤ 4096
      → 5 ≤ length second
      → first_byte second ≢ record_heartbeat
      → heartbleed (some peer) ≡ some false
heartbleed_missed peer first second rest h b e small long other =
    let both : List Bytes = client_hello_with_heartbeat ∷ malicious_heartbeat ∷ [] in
    heartbleed_lem peer first (second ∷ rest) h b e small
    ∙ ap some (no_leak second (flat rest) (flat (peer.reply both)) long other)

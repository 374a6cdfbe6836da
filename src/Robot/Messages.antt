-- ===== src/Robot/Messages.antt =====
-- internal/handshake/robot.go: `readServerHelloAndCert` on a flight of messages that is cut into
-- records.
use tlsscan.Base.{
  ℕ, zero, suc, ◌≤◌, ◌<◌, Bool, false, List, [], ◌∷◌, ◌++◌, Option, none, some, length, take, drop,
  leb, ◌==◌, if◌then◌else◌, ◌≡◌, ◌∙◌, refl, sym, ap, arith, inl, inr, Bool-cases, length-append,
  length-drop,
}
use tlsscan.Wire.{Bytes}
use tlsscan.Net.Full.{flat}
use tlsscan.Probe.{first_byte, handshake_server_hello}
use tlsscan.Renegotiation.{msg_len}
use tlsscan.Session.{RsaPublicKey}
use tlsscan.Session.Reader.{holds_message}
use tlsscan.Session.Messages.{buffer-holds, buffer-lacks, taken_lem, left_over}
use tlsscan.Session.Pending.{AreHandshakes}
use tlsscan.Session.Flight.{handshake_certificate, handshake_server_hello_done}
use tlsscan.Robot.Flight.{Seen, on_message, Drained, returns, leaves, drain}

-- The messages behind the first ServerHelloDone.
abbrev pub unread : List Bytes → List Bytes
unread [] = []
unread (m ∷ ms) = if first_byte m == handshake_server_hello_done then ms else unread ms

unread-other :
    (m : Bytes) (ms : List Bytes)
    → (first_byte m == handshake_server_hello_done) ≡ false
    → unread (m ∷ ms) ≡ unread ms
unread-other m ms h = rw h

module _ (rsa_key : Bytes → Option RsaPublicKey) where
  -- What the messages of a flight say, one after the other; `none` without a ServerHelloDone.
  abbrev pub heard : List Bytes → Seen → Option (Bool × Option RsaPublicKey)
  heard [] s = none
  heard (m ∷ ms) s = on_message rsa_key m s some (heard ms)

  -- What is left when the buffer has been drained: a result, or messages of which the first is
  -- not whole in the buffer.
  pub data Rest (ms : List Bytes) (s : Seen) (more : Bytes) : Drained → Type 0 where
    has_result :
        {r : Bool × Option RsaPublicKey} (buf : Bytes)
        → heard ms s ≡ some r
        → buf ++ more ≡ flat (unread ms)
        → Rest ms s more (returns r)
    waits :
        {buf : Bytes} {s' : Seen} (ms' : List Bytes)
        → heard ms s ≡ heard ms' s'
        → unread ms ≡ unread ms'
        → buf ++ more ≡ flat ms'
        → AreHandshakes ms'
        → length (flat ms') ≤ length (flat ms)
        → holds_message buf ≡ false
        → Rest ms s more (leaves buf s')

  Rest-later :
      {m : Bytes} {ms : List Bytes} {s s₁ : Seen} {more : Bytes} {d : Drained}
      → heard (m ∷ ms) s ≡ heard ms s₁
      → unread (m ∷ ms) ≡ unread ms
      → Rest ms s₁ more d
      → Rest (m ∷ ms) s more d
  Rest-later e u (has_result buf f left) = has_result buf (e ∙ f) (left ∙ ap flat (sym u))
  Rest-later {m} {ms} e u (waits ms' f u' split are shorter lacks) =
      waits ms' (e ∙ f) (u ∙ u') split are (omega (arith, shorter, length-append m (flat ms))) lacks

  -- A message is heard alike by the loop and by `heard`.
  on_message-Rest :
      (m : Bytes) (ms : List Bytes) (s : Seen) (buf more : Bytes) (go : Seen → Drained)
      → buf ++ more ≡ flat ms
      → ((s' : Seen) → Rest ms s' more (go s'))
      → Rest (m ∷ ms) s more (on_message rsa_key m s returns go)
  on_message-Rest m ms s buf more go left h =
      elim (Bool-cases (first_byte m == handshake_server_hello)) [
        | inl e ↦ rw e (Rest-later (rw e refl) (unread-other m ms (ground arith)) (h _))
        | inr a ↦ elim (Bool-cases (first_byte m == handshake_certificate)) [
          | inl e ↦ rw (a, e) (Rest-later (rw (a, e) refl) (unread-other m ms (ground arith)) (h _))
          | inr b ↦ elim (Bool-cases (first_byte m == handshake_server_hello_done)) [
            | inl e ↦ rw (a, b, e) (has_result buf (rw (a, b, e) refl) (rw e left))
            | inr c ↦ rw (a, b, c) (Rest-later (rw (a, b, c) refl) (unread-other m ms c) (h s))
          ]
        ]
      ]

  drain_step :
      (fuel : ℕ) (m : Bytes) (ms : List Bytes) (s : Seen) (buf more : Bytes)
      → AreHandshakes (m ∷ ms)
      → buf ++ more ≡ flat (m ∷ ms)
      → length buf ≤ suc fuel
      → length m ≤ length buf
      → ((s' : Seen) → Rest ms s' more (drain rsa_key fuel (drop (length m) buf) s'))
      → Rest (m ∷ ms) s more (
          on_message rsa_key
            (take (msg_len buf) buf)
            s
            returns
            (drain rsa_key fuel (drop (msg_len buf) buf)))
  drain_step fuel m ms s buf more are split h le go =
      let t = taken_lem m (flat ms) are.0 buf more split le in
      rw (ap (λ n. n.msg) t, ap (λ n. n.buf) t)
        (on_message-Rest m ms s (drop (length m) buf) more
          (drain rsa_key fuel (drop (length m) buf)) (left_over m (flat ms) are.0 buf more split le)
          go)

  pub drain-Rest :
      (fuel : ℕ) (ms : List Bytes) (s : Seen) (buf more : Bytes)
      → AreHandshakes ms
      → buf ++ more ≡ flat ms
      → length buf ≤ fuel
      → Rest ms s more (drain rsa_key fuel buf s)
  unfolding drain
  drain-Rest zero ms s [] more are split h = waits ms refl refl split are (omega arith) refl
  drain-Rest zero ms s (b ∷ bs) more are split h = absurd (omega arith)
  drain-Rest (suc fuel) [] s buf more are split h =
      let e : holds_message buf ≡ false =
        let n = ap length split in ground (arith, length-append buf more) in
      rw (e, drain) (waits [] refl refl split are (omega arith) e)
  drain-Rest (suc fuel) (m ∷ ms) s buf more are split h =
      elim (Bool-cases (leb (length m) (length buf))) [
        | inl e ↦
            let le : length m ≤ length buf = ground arith in
            let four = are.0.has_header in
            rw (buffer-holds m (flat ms) are.0 buf more split le, drain)
              (drain_step fuel m ms s buf more are split h le (λ s'.
                drain-Rest fuel ms s' (drop (length m) buf) more are.1
                  (left_over m (flat ms) are.0 buf more split le)
                  (omega (arith, length-drop (length m) buf))))
        | inr e ↦
            let lt : length buf < length m = ground arith in
            let lacks = buffer-lacks m (flat ms) are.0 buf more split lt in
            rw (lacks, drain) (waits (m ∷ ms) refl refl split are (omega arith) lacks)
      ]

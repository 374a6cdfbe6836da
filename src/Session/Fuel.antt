-- ===== src/Session/Fuel.antt =====
-- internal/handshake/cbc.go: the rounds of `hsReader.next`.
use tlsscan.Base.{
  ℕ, zero, suc, ◌+◌, ◌≤◌, ◌<◌, not, ◌||◌, ◌++◌, length, take, drop, ltb, leb, ◌==◌, ◌≡◌, ◌∙◌, refl,
  sym, ap, arith, inl, inr, Bool-cases, length-append, length-take,
}
use tlsscan.Wire.{Bytes}
use tlsscan.Wire.Headers.{record_handshake}
use tlsscan.Net.Stream.{Agrees, Parsed, got, starved, refused, Parser, then_parse, header}
use tlsscan.Net.{Conn}
use tlsscan.Net.Full.{flat}
use tlsscan.Session.Reader.{next, Next, holds_message}
use tlsscan.Session.Messages.{next_loop-Implements, next_parser, payload_parser, grown_parser}

-- Two ways to go on that agree on every longer buffer that is not too long.
abbrev AgreeAfter : Bytes → (Bytes → Parser Next) → (Bytes → Parser Next) → Type 0
AgreeAfter buf g g' = (b s : Bytes) → length buf < length b → length b ≤ 262144 → g b s ≡ g' b s

grown_agree :
    (buf p s : Bytes) (g g' : Bytes → Parser Next)
    → AgreeAfter buf g g'
    → 0 < length p
    → grown_parser g (buf ++ p) s ≡ grown_parser g' (buf ++ p) s
grown_agree buf p s g g' h pos = elim (Bool-cases (ltb 262144 (length (buf ++ p)))) [
  | inl e ↦ rw e refl
  | inr e ↦ rw e (h (buf ++ p) s (omega (arith, length-append buf p)) (ground arith))
]

payload_agree :
    (buf : Bytes) (g g' : Bytes → Parser Next) (t : ℕ × ℕ × ℕ) (s : Bytes)
    → AgreeAfter buf g g'
    → payload_parser g buf t s ≡ payload_parser g' buf t s
payload_agree buf g g' t s h =
    elim (Bool-cases (not (t.0 == record_handshake) || (ltb t.2 1 || ltb 65536 t.2))) [
      | inl e ↦ rw e refl
      | inr e ↦
          let pos : 0 < t.2 = ground arith in
          elim (Bool-cases (leb t.2 (length s))) [
            | inl f ↦
                rw (e, f)
                  (grown_agree buf (take t.2 s) (drop t.2 s) g g' h
                    (let l : t.2 ≤ length s = ground arith in omega (arith, length-take t.2 s)))
            | inr f ↦ rw (e, f) refl
          ]
    ]

record_agree :
    (buf : Bytes) (g g' : Bytes → Parser Next) (q : Parsed (ℕ × ℕ × ℕ))
    → AgreeAfter buf g g'
    → then_parse q (payload_parser g buf) ≡ then_parse q (payload_parser g' buf)
record_agree buf g g' (got t s) h = payload_agree buf g g' t s h
record_agree buf g g' starved h = refl
record_agree buf g g' (refused e) h = refl

-- One round more changes nothing, where the rounds and the buffer exceed the bound together.
pub next_parser_fuel :
    (fuel : ℕ) (buf s : Bytes)
    → length buf ≤ 262144
    → 262144 < length buf + fuel
    → next_parser fuel buf s ≡ next_parser (suc fuel) buf s
unfolding next_parser
next_parser_fuel zero buf s small enough = absurd (omega arith)
next_parser_fuel (suc fuel) buf s small enough = elim (Bool-cases (holds_message buf)) [
  | inl e ↦ rw (e, next_parser) refl
  | inr e ↦
      rw (e, next_parser)
        (record_agree buf (next_parser fuel) (next_parser (suc fuel)) (header s)
          (λ b s' longer fits. next_parser_fuel fuel b s' fits (omega arith)))
]

more_rounds :
    (k : ℕ) (buf s : Bytes)
    → length buf ≤ 262144
    → next_parser 262146 buf s ≡ next_parser (k + 262146) buf s
more_rounds zero buf s small = refl
more_rounds (suc k) buf s small =
    let e : suc k + 262146 ≡ suc (k + 262146) = omega arith in
    more_rounds k buf s small
    ∙ next_parser_fuel (k + 262146) buf s small (omega arith)
    ∙ ap (λ n. next_parser n buf s) (sym e)

-- The rounds that `next` is given are enough: from a buffer of at most 262144 bytes, it returns,
-- and leaves of the stream, what the loop finds with any number of rounds more.
pub next_enough :
    (k : ℕ) (buf : Bytes) (c : Conn)
    → length buf ≤ 262144
    → Agrees c (next buf c) (next_parser (k + 262146) buf (flat c.inbound))
unfolding next
next_enough k buf c small =
    rw (sym (more_rounds k buf (flat c.inbound) small)) (next_loop-Implements 262146 buf c)

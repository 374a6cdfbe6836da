-- ===== src/Session/Received.antt =====
-- internal/handshake/cbc.go: the server's flight as `establishCBCSession` reads it, on a connection
-- where the messages of such a flight wait.
use tlsscan.Base.{
  ℕ, zero, suc, ◌+◌, ◌≤◌, ◌<◌, true, false, List, [], ◌∷◌, ◌++◌, some, length, ◌==◌, ◌≡◌, ◌∙◌, refl,
  ap, arith, length-append, append_assoc, append-nil,
}
use tlsscan.Wire.{Bytes}
use tlsscan.Net.{Conn, Result, ok, after}
use tlsscan.Net.Full.{flat}
use tlsscan.Parse.{parse_ecdhe_server_key_exchange, parse_leaf_rsa_key}
use tlsscan.Cbc.{CbcCipherParams}
use tlsscan.Probe.{first_byte}
use tlsscan.Renegotiation.Reassembly.{records, AreFragments}
use tlsscan.Session.{Library, parsed}
use tlsscan.Session.Reader.{next}
use tlsscan.Session.Flight.{
  ske_read, exchange, KeyExchange, handshake_server_key_exchange, handshake_server_hello_done,
  ecdhe_secret, rsa_secret, exchanged, ecdhe_exchange, rsa_exchange, skipped, skip_loop,
  skip_to_done,
}
use tlsscan.Session.Pending.{AreHandshakes, Pending, next-Pending}

-- A step has returned `a`, and has left the bytes `more` on the connection.
pub record Ended {A : Type 0} (more : Bytes) (a : A) (c : Conn) (r : Result A × Conn) : Type 0 where
  pub packets : List Bytes
  pub returned : r ≡ (ok a, record c { inbound = packets })
  pub remaining : flat packets ≡ more

-- No message is a ServerHelloDone.
abbrev pub GoOn : List Bytes → Type 0
GoOn [] = Unit
GoOn (m ∷ ms) = ((first_byte m == handshake_server_hello_done) ≡ false) × GoOn ms

abbrev pub IsDone : Bytes → Type 0
IsDone m = first_byte m ≡ handshake_server_hello_done

pub Ended-before :
    {A : Type 0} {more : Bytes} {a : A} {c : Conn} {ps : List Bytes} {r r' : Result A × Conn}
    → r ≡ r'
    → Ended more a (record c { inbound = ps }) r'
    → Ended more a c r
Ended-before e d = record {
  packets = d.packets;
  returned = e ∙ d.returned;
  remaining = d.remaining;
}

none_left : (more left : Bytes) (c : Conn) → Pending more [] left c → flat c.inbound ≡ more
none_left more left c p = go p.frags p.are_fragments p.stream (ap length p.split)
  where
    go :
        (fs : List Bytes)
        → AreFragments fs
        → flat c.inbound ≡ records p.version fs ++ more
        → length (left ++ flat fs) ≡ 0
        → flat c.inbound ≡ more
    go [] are s e = s
    go (f ∷ fs) are s e =
        absurd (omega (arith, length-append left (f ++ flat fs), length-append f (flat fs), are.0))

length-handshakes : (ms : List Bytes) → AreHandshakes ms → length ms ≤ length (flat ms)
length-handshakes [] are = omega arith
length-handshakes (m ∷ ms) are =
    let h = are.0.has_header in omega (arith, length-append m (flat ms), length-handshakes ms are.1)

length-records : (version : ℕ) (fs : List Bytes) → length (flat fs) ≤ length (records version fs)
length-records version [] = omega arith
length-records version (f ∷ fs) = omega (
  arith,
  length-append f (flat fs),
  length-append f (records version fs),
  length-records version fs,
)

module _ (lib : Library) where
  skip_step :
      (fuel : ℕ) (transcript buf m : Bytes) (c : Conn) (left : Bytes) (ps : List Bytes)
      → next buf c
        ≡ (ok (record { kind = first_byte m; msg = m; buf = left }), record c { inbound = ps })
      → (first_byte m == handshake_server_hello_done) ≡ false
      → skip_loop lib (suc fuel) transcript buf c
        ≡ skip_loop lib fuel (transcript ++ m) left (record c { inbound = ps })
  unfolding skip_loop
  skip_step fuel transcript buf m c left ps e g =
      ap (λ r. after r (skipped (skip_loop lib fuel) transcript)) e ∙ rw g refl

  pub skip_loop-Pending :
      (more done : Bytes) (mid : List Bytes) (fuel : ℕ) (transcript buf : Bytes) (c : Conn)
      → Pending more (mid ++ done ∷ []) buf c
      → GoOn mid
      → IsDone done
      → length mid < fuel
      → Ended more (transcript ++ flat (mid ++ done ∷ [])) c (skip_loop lib fuel transcript buf c)
  unfolding skip_loop
  skip_loop-Pending more done mid zero transcript buf c p g d h = absurd (omega arith)
  skip_loop-Pending more done [] (suc fuel) transcript buf c p g d h =
      let t = next-Pending more done [] buf c p in
      record {
        packets = t.packets;
        returned = rw (t.took, d, append-nil) refl;
        remaining = none_left more t.left (record c { inbound = t.packets }) t.pending;
      }
  skip_loop-Pending more done (m ∷ mid) (suc fuel) transcript buf c p g d h =
      let t = next-Pending more m (mid ++ done ∷ []) buf c p in
      Ended-before (skip_step fuel transcript buf m c t.left t.packets t.took g.0) (
        rw append_assoc at (
          skip_loop-Pending more done mid fuel (transcript ++ m) t.left
            (record c { inbound = t.packets }) t.pending g.1 d (omega arith)))

  -- The fuel is enough, as a message takes four bytes.
  length-pending :
      (more : Bytes) (ms : List Bytes) (buf : Bytes) (c : Conn)
      → Pending more ms buf c
      → length ms ≤ length buf + length (flat c.inbound)
  length-pending more ms buf c p =
      let a = length-handshakes ms p.are_handshakes in
      let b = ap length p.split in
      let s = ap length p.stream in
      let r = length-records p.version p.frags in
      omega
        (arith, length-append buf (flat p.frags), length-append (records p.version p.frags) more)

  pub skip_to_done-Pending :
      (more done : Bytes) (mid : List Bytes) (transcript buf : Bytes) (c : Conn)
      → Pending more (mid ++ done ∷ []) buf c
      → GoOn mid
      → IsDone done
      → Ended more (transcript ++ flat (mid ++ done ∷ [])) c (skip_to_done lib transcript buf c)
  unfolding skip_to_done
  skip_to_done-Pending more done mid transcript buf c p g d =
      skip_loop-Pending more done mid _ transcript buf c p g d (
        omega
          (arith, length-pending more (mid ++ done ∷ []) buf c p, length-append mid (done ∷ [])))

  -- The messages between the Certificate and the rest, and the secret that comes of them.
  pub data Agreed (params : CbcCipherParams) (cert : Bytes)
      : List Bytes → Bytes × Bytes → Type 0 where
    by_ecdhe :
        (ske : Bytes) {point : ℕ × Bytes} {secret : Bytes × Bytes}
        → params.ecdhe ≡ true
        → first_byte ske ≡ handshake_server_key_exchange
        → parsed (parse_ecdhe_server_key_exchange ske) ≡ some point
        → ecdhe_secret lib point ≡ some secret
        → Agreed params cert (ske ∷ []) secret
    by_rsa :
        {secret : Bytes × Bytes}
        → params.ecdhe ≡ false
        → rsa_secret lib (parsed (parse_leaf_rsa_key lib.rsa_key cert)) ≡ some secret
        → Agreed params cert [] secret

  -- The key exchange, up to the buffer and the packets that it leaves.
  pub record Exchanged (more : Bytes) (rest : List Bytes) (transcript : Bytes)
      (secret : Bytes × Bytes) (c : Conn) (r : Result KeyExchange × Conn) : Type 0 where
    pub left : Bytes
    pub packets : List Bytes
    pub returned : r ≡ (ok (exchanged lib transcript left secret), record c { inbound = packets })
    pub pending : Pending more rest left (record c { inbound = packets })

  pub exchange-Agreed :
      (more : Bytes) (params : CbcCipherParams) (cert transcript buf : Bytes) (kx rest : List Bytes)
      (secret : Bytes × Bytes) (c : Conn)
      → Agreed params cert kx secret
      → Pending more (kx ++ rest) buf c
      → Exchanged more rest ((transcript ++ cert) ++ flat kx) secret c (
          exchange lib params transcript
            (record { kind = first_byte cert; msg = cert; buf = buf })
            c)
  unfolding ecdhe_exchange rsa_exchange
  exchange-Agreed more params cert transcript buf kx rest secret c (by_rsa e s) p = record {
    left = buf;
    packets = c.inbound;
    returned = rw (e, s, append-nil) refl;
    pending = p;
  }
  exchange-Agreed more params cert transcript buf kx rest secret c (by_ecdhe ske e k q s) p =
      let t = next-Pending more ske rest buf c p in
      record {
        left = t.left;
        packets = t.packets;
        returned = rw e (
            ap (λ r. after r (ske_read lib (transcript ++ cert))) t.took
            ∙ rw (k, q, s, append-nil) refl);
        pending = t.pending;
      }

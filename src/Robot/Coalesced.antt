-- ===== src/Robot/Coalesced.antt =====
-- internal/handshake/robot.go: `readServerHelloAndCert` on a connection where the messages of a
-- flight wait, cut into at most sixteen records in any way.
use tlsscan.Base.{
  ℕ, zero, suc, ◌≤◌, ◌<◌, Bool, false, List, [], ◌∷◌, ◌++◌, Option, none, some, length, ltb, ◌≡◌,
  ◌∙◌, refl, sym, ap, arith, length-append, append_assoc,
}
use mathlib.Core.Option.{some-injective, none-ne-some}
use mathlib.Core.Bool.{false≢true}
use tlsscan.Wire.{Bytes}
use tlsscan.Wire.Headers.{record_handshake, framed}
use tlsscan.Net.{Io, Conn, Result, ok, read_full}
use tlsscan.Net.Record.{read_record_header}
use tlsscan.Net.Full.{flat}
use tlsscan.Net.Framed.{header-framed, bytes-append}
use tlsscan.Net.Stream.{Agrees, bytes, header, read_full-Implements, read_record_header-Implements}
use tlsscan.Renegotiation.Reassembly.{records, AreFragments}
use tlsscan.Session.{RsaPublicKey}
use tlsscan.Session.Reader.{holds_message}
use tlsscan.Session.Messages.{total_length, buffer-holds}
use tlsscan.Session.Pending.{AreHandshakes}
use tlsscan.Robot.Flight.{
  Seen, Drained, returns, leaves, caught, drained, on_payload, on_header, flight_loop,
  read_server_hello_and_cert,
}
use tlsscan.Robot.Messages.{unread, heard, Rest, has_result, waits, drain-Rest}

-- The header of the first record, and what is left of the connection.
record Began (f tail : Bytes) (c : Conn) : Type 0 where
  pub version : ℕ
  pub packets : List Bytes
  pub began :
      read_record_header c
      ≡ (ok (record_handshake, version, length f), record c { inbound = packets })
  pub stream : flat packets ≡ f ++ tail

header_arrives :
    (version : ℕ) (f tail : Bytes) (c : Conn)
    → length f < 65536
    → flat c.inbound ≡ framed version record_handshake f ++ tail
    → Began f tail c
header_arrives version f tail c fits s =
    let a : Agrees c (read_record_header c) (header (flat c.inbound)) =
      read_record_header-Implements c in
    let (ps, e, q) = rw (s, header-framed version record_handshake f tail fits) at a in
    record { version = _; packets = ps; began = e; stream = q }

payload_read :
    (f tail : Bytes) (c : Conn)
    → flat c.inbound ≡ f ++ tail
    → (ps : List Bytes) × (read_full (length f) c ≡ (ok f, record c { inbound = ps }))
      × (flat ps ≡ tail)
payload_read f tail c s =
    let a : Agrees c (read_full (length f) c) (bytes (length f) (flat c.inbound)) =
      read_full-Implements (length f) c in
    rw (s, bytes-append f tail) at a

-- Where no message stands behind the ServerHelloDone, exactly `tail` waits.
abbrev Remains : Bytes → List Bytes → List Bytes → Type 0
Remains tail ms ps = unread ms ≡ [] → flat ps ≡ tail

abbrev Returned :
    Bytes
    → List Bytes
    → Bool × Option RsaPublicKey
    → Conn
    → Result (Bool × Option RsaPublicKey) × Conn
    → Type 0
Returned tail ms r c outcome =
    (ps : List Bytes) × (outcome ≡ (ok r, record c { inbound = ps })) × Remains tail ms ps

-- Where all the bytes are read, so are the records.
no_fragments :
    (version : ℕ) (fs : List Bytes) (buf tail : Bytes)
    → AreFragments fs
    → buf ++ flat fs ≡ []
    → records version fs ++ tail ≡ tail
no_fragments version [] buf tail are h = refl
no_fragments version (f ∷ fs) buf tail are h =
    let n = ap length h in
    let k = are.0 in
    absurd (omega (arith, length-append buf (flat (f ∷ fs)), length-append f (flat fs)))

module _ (rsa_key : Bytes → Option RsaPublicKey) where
  -- No whole message is left when all the bytes have been read.
  nothing_left :
      (ms : List Bytes) (buf : Bytes) (s : Seen) (r : Bool × Option RsaPublicKey)
      → AreHandshakes ms
      → buf ++ [] ≡ flat ms
      → holds_message buf ≡ false
      → heard rsa_key ms s ≡ some r
      → ⊥
  nothing_left [] buf s r are split lacks h = none-ne-some r h
  nothing_left (m ∷ ms) buf s r are split lacks h =
      let n = total_length m (flat ms) are.0 buf [] split in
      let holds = buffer-holds m (flat ms) are.0 buf [] split (omega arith) in
      absurd (false≢true (sym lacks ∙ holds))

  drained-heard :
      (ms : List Bytes) (s : Seen) (rest tail : Bytes) (r : Bool × Option RsaPublicKey) (c : Conn)
      (go : Bytes → Seen → Io (Bool × Option RsaPublicKey)) (d : Drained)
      → Rest rsa_key ms s rest d
      → length (flat ms) ≤ 131072
      → heard rsa_key ms s ≡ some r
      → ((buf : Bytes) → buf ++ rest ≡ flat (unread ms) → Remains tail ms c.inbound)
      → ((ms' : List Bytes) (s' : Seen) (buf : Bytes)
          → AreHandshakes ms'
          → length (flat ms') ≤ 131072
          → buf ++ rest ≡ flat ms'
          → holds_message buf ≡ false
          → heard rsa_key ms' s' ≡ some r
          → Returned tail ms' r c (go buf s' c))
      → Returned tail ms r c (drained rsa_key go d c)
  drained-heard ms s rest tail r c go (returns r') (has_result buf e left) small h remains next =
      (c.inbound, rw (some-injective _ _ (sym e ∙ h)) refl, remains buf left)
  drained-heard ms s rest tail r c go (leaves buf s') (waits ms' e u split are shorter lacks) small
        h remains next =
      let fits : ltb 131072 (length buf) ≡ false =
        let n = ap length split in ground (arith, length-append buf rest) in
      let (ps, f, left) = next ms' s' buf are (omega arith) split lacks (sym e ∙ h) in
      rw fits (ps, f, λ nothing. left (sym u ∙ nothing))

  flight_loop-heard :
      (n version : ℕ) (fs : List Bytes) (tail : Bytes) (ms : List Bytes) (s : Seen) (buf : Bytes)
      (c : Conn) (r : Bool × Option RsaPublicKey)
      → AreFragments fs
      → AreHandshakes ms
      → length fs ≤ n
      → length (flat ms) ≤ 131072
      → flat c.inbound ≡ records version fs ++ tail
      → buf ++ flat fs ≡ flat ms
      → holds_message buf ≡ false
      → heard rsa_key ms s ≡ some r
      → Returned tail ms r c (flight_loop rsa_key n buf s c)
  unfolding flight_loop
  flight_loop-heard n version [] tail ms s buf c r are hs le small stream split lacks h =
      absurd (nothing_left ms buf s r hs split lacks h)
  flight_loop-heard zero version (f ∷ fs) tail ms s buf c r are hs le small stream split lacks h =
      absurd (omega arith)
  flight_loop-heard (suc n) version (f ∷ fs) tail ms s buf c r are hs le small stream split lacks
        h =
      let b =
        header_arrives version f (records version fs ++ tail) c are.1
          (stream ∙ append_assoc (framed version record_handshake f) (records version fs) tail) in
      let (ps, e, q) =
        payload_read f (records version fs ++ tail) (record c { inbound = b.packets }) b.stream in
      let x : ltb (length f) 1 ≡ false = let k = are.0 in ground arith in
      let y : ltb 65536 (length f) ≡ false = let k = are.1 in ground arith in
      let split' : (buf ++ f) ++ flat fs ≡ flat ms = append_assoc buf f (flat fs) ∙ split in
      let (ps', z, left) =
        drained-heard ms s (flat fs) tail r (record c { inbound = ps }) (flight_loop rsa_key n) _
          (drain-Rest rsa_key (length (buf ++ f)) ms s (buf ++ f) (flat fs) hs split' (omega arith))
          small h
          (λ buf' gone nothing.
            q ∙ no_fragments version fs buf' tail are.2 (gone ∙ ap flat nothing))
          (λ ms' s' buf' hs' small' split'' lacks' h'.
            flight_loop-heard n version fs tail ms' s' buf' (record c { inbound = ps }) r are.2 hs'
              (omega arith) small' q split'' lacks' h') in
      (
        ps',
        ap (λ t. caught (false, s.key) t (on_header rsa_key (flight_loop rsa_key n) buf s)) b.began
            ∙ rw (x, y)
                (ap
                    (λ t.
                      caught (false, s.key) t (on_payload rsa_key (flight_loop rsa_key n) buf s))
                    e
                  ∙ z),
        left,
      )

  -- Take whole handshake messages of at most 131072 bytes together, with a ServerHelloDone among
  -- them, that wait on a connection, cut into at most sixteen records that are not empty, in any
  -- packets and with any bytes behind them. `readServerHelloAndCert` returns what these messages
  -- say one after the other: whether a ServerHello and a key stood before the ServerHelloDone,
  -- and the last key. Where the ServerHelloDone is the last message, exactly the bytes behind the
  -- records are left.
  pub read_server_hello_and_cert-heard :
      (version : ℕ) (fs : List Bytes) (tail : Bytes) (ms : List Bytes) (c : Conn)
      (r : Bool × Option RsaPublicKey)
      → AreFragments fs
      → AreHandshakes ms
      → length fs ≤ 16
      → length (flat ms) ≤ 131072
      → flat c.inbound ≡ records version fs ++ tail
      → flat fs ≡ flat ms
      → heard rsa_key ms (record { hello = false; key = none }) ≡ some r
      → (ps : List Bytes) × (read_server_hello_and_cert rsa_key c
          ≡ (ok r, record c { inbound = ps }))
        × (unread ms ≡ [] → flat ps ≡ tail)
  unfolding read_server_hello_and_cert
  read_server_hello_and_cert-heard version fs tail ms c r are hs le small stream split h =
      flight_loop-heard 16 version fs tail ms _ [] c r are hs le small stream split refl h

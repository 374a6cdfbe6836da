-- ===== src/Net/Full.antt =====
-- `readFull` (legacy.go, heartbleed.go) and the stream of bytes that arrives.
use tlsscan.Base.{
  ap, leb→le, ℕ, zero, suc, ◌+◌, ◌-◌, ◌≤◌, ◌<◌, true, false, List, [], ◌∷◌, ◌++◌, length, take,
  drop, ltb, leb, if◌then◌else◌, ◌≡◌, ◌∙◌, refl, sym, inl, inr, arith, Bool-cases, append-nil,
  append_assoc, length-append, length-take, take-append_le, take-append_ge, drop-append_le,
  drop-append_ge,
}
use tlsscan.Wire.{Bytes}
use tlsscan.Net.{Peer, Conn, ok, err, read, read_loop, read_full}

-- The bytes that wait, packets forgotten.
abbrev pub flat : List Bytes → Bytes
flat [] = []
flat (p ∷ ps) = p ++ flat ps

pub flat-append : (ps qs : List Bytes) → flat (ps ++ qs) ≡ flat ps ++ flat qs
flat-append [] qs = refl
flat-append (p ∷ ps) qs = ap (λ r. p ++ r) (flat-append ps qs) ∙ rw append_assoc

-- The packets that are left when `k` bytes have been read.
abbrev pub skip : ℕ → List Bytes → List Bytes
skip zero ps = ps
skip (suc k) [] = []
skip (suc k) (p ∷ ps) =
    if leb (length p) (suc k) then skip (suc k - length p) ps else drop (suc k) p ∷ ps

pub flat-skip : (k : ℕ) (ps : List Bytes) → flat (skip k ps) ≡ drop k (flat ps)
flat-skip zero ps = refl
flat-skip (suc k) [] = refl
flat-skip (suc k) (p ∷ ps) = elim (Bool-cases (leb (length p) (suc k))) [
  | inl e ↦
      rw e
        (flat-skip (suc k - length p) ps ∙ sym (drop-append_ge (suc k) p (flat ps) (ground arith)))
  | inr e ↦ rw e (sym (drop-append_le (suc k) p (flat ps) (ground arith)))
]

module _ (peer : Peer) (sent : List Bytes) where
  abbrev conn : List Bytes → Conn
  conn ps = record { peer = peer; sent = sent; inbound = ps }

  read_whole :
      (n : ℕ) (p : Bytes) (ps : List Bytes)
      → length p ≤ n
      → read n (conn (p ∷ ps)) ≡ (ok p, conn ps)
  unfolding read
  read_whole n p ps h = let e : leb (length p) n ≡ true = ground arith in rw e

  read_part :
      (n : ℕ) (p : Bytes) (ps : List Bytes)
      → n < length p
      → read n (conn (p ∷ ps)) ≡ (ok (take n p), conn (drop n p ∷ ps))
  unfolding read
  read_part n p ps h = let e : leb (length p) n ≡ false = ground arith in rw e

  read_loop_done :
      (fuel n : ℕ) (got : Bytes) (ps : List Bytes)
      → n ≤ length got
      → read_loop (suc fuel) n got (conn ps) ≡ (ok got, conn ps)
  unfolding read_loop
  read_loop_done fuel n got ps h =
      let e : ltb (length got) n ≡ false = ground arith in rw (e, read_loop)

  read_loop_more :
      (fuel n : ℕ) (got p : Bytes) (ps : List Bytes)
      → length got < n
      → length p ≤ n - length got
      → read_loop (suc fuel) n got (conn (p ∷ ps)) ≡ read_loop fuel n (got ++ p) (conn ps)
  unfolding read_loop
  read_loop_more fuel n got p ps h k =
      let e : ltb (length got) n ≡ true = ground arith in
      rw (e, read_loop) (rw (read_whole (n - length got) p ps k))

  read_loop_cut :
      (fuel n : ℕ) (got p : Bytes) (ps : List Bytes)
      → length got < n
      → n - length got < length p
      → read_loop (suc fuel) n got (conn (p ∷ ps))
        ≡ read_loop fuel n (got ++ take (n - length got) p) (conn (drop (n - length got) p ∷ ps))
  unfolding read_loop
  read_loop_cut fuel n got p ps h k =
      let e : ltb (length got) n ≡ true = ground arith in
      rw (e, read_loop) (rw (read_part (n - length got) p ps k))

  read_loop_fault :
      (fuel n : ℕ) (got : Bytes)
      → length got < n
      → read_loop (suc fuel) n got (conn []) ≡ (err (peer.fault sent), conn [])
  unfolding read_loop read
  read_loop_fault fuel n got h =
      let e : ltb (length got) n ≡ true = ground arith in rw (e, read_loop)

  -- The loop on a stream with enough bytes.
  read_loop_enough :
      (ps : List Bytes) (fuel n k : ℕ) (got : Bytes)
      → n ≡ length got + k
      → length ps + 2 ≤ fuel
      → k ≤ length (flat ps)
      → read_loop fuel n got (conn ps) ≡ (ok (got ++ take k (flat ps)), conn (skip k ps))
  read_loop_enough ps zero n k got e hf hk = absurd (omega arith)
  read_loop_enough ps (suc fuel) n zero got e hf hk =
      rw append-nil (read_loop_done fuel n got ps (omega arith))
  read_loop_enough [] (suc fuel) n (suc k) got e hf hk = absurd (omega arith)
  read_loop_enough (p ∷ ps) (suc zero) n (suc k) got e hf hk = absurd (omega arith)
  read_loop_enough (p ∷ ps) (suc (suc fuel)) n (suc k) got e hf hk =
      let len = length-append p (flat ps) in
      elim (Bool-cases (leb (length p) (suc k))) [
        | inl le ↦
            let small = leb→le (length p) (suc k) le in
            rw le (
              read_loop_more (suc fuel) n got p ps (omega arith) (omega arith)
              ∙ read_loop_enough ps (suc fuel) n (suc k - length p) (got ++ p)
                  (omega (arith, length-append got p)) (omega arith) (omega arith)
              ∙ rw (take-append_ge (suc k) p (flat ps) small, append_assoc))
        | inr gt ↦
            let big : suc k < length p = ground arith in
            let d : n - length got ≡ suc k = omega arith in
            rw gt (
              rw d at (read_loop_cut (suc fuel) n got p ps (omega arith) (omega arith))
              ∙ read_loop_done fuel n (got ++ take (suc k) p) (drop (suc k) p ∷ ps)
                  (omega (arith, length-append got (take (suc k) p), length-take (suc k) p))
              ∙ rw (take-append_le (suc k) p (flat ps) (omega arith)))
      ]

  -- The loop on a stream that ends too soon: the error of the connection, all bytes used up.
  read_loop_short :
      (ps : List Bytes) (fuel n k : ℕ) (got : Bytes)
      → n ≡ length got + k
      → length ps + 2 ≤ fuel
      → length (flat ps) < k
      → read_loop fuel n got (conn ps) ≡ (err (peer.fault sent), conn [])
  read_loop_short ps zero n k got e hf hk = absurd (omega arith)
  read_loop_short [] (suc fuel) n k got e hf hk = read_loop_fault fuel n got (omega arith)
  read_loop_short (p ∷ ps) (suc fuel) n k got e hf hk =
      let len = length-append p (flat ps) in
      read_loop_more fuel n got p ps (omega arith) (omega arith)
      ∙ read_loop_short ps fuel n (k - length p) (got ++ p) (omega (arith, length-append got p))
          (omega arith) (omega arith)

-- `readFull` on `n` bytes depends on the stream alone. If `n` bytes arrive it returns them, and
-- leaves exactly the bytes behind them; else it returns the error of the connection. What has
-- been sent stays as it was.
pub read_full_lem :
    (n : ℕ) (c : Conn)
    → (n ≤ length (flat c.inbound)
        → read_full n c ≡ (ok (take n (flat c.inbound)), record c { inbound = skip n c.inbound }))
      × (length (flat c.inbound) < n
          → read_full n c ≡ (err (c.peer.fault c.sent), record c { inbound = [] }))
unfolding read_full
read_full_lem n c = (
  λ h. read_loop_enough c.peer c.sent c.inbound _ n n [] (omega arith) (omega arith) h,
  λ h. read_loop_short c.peer c.sent c.inbound _ n n [] (omega arith) (omega arith) h,
)

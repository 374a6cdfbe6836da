-- ===== src/Session/Acceptance.antt =====
-- internal/handshake/cbc.go: `expectServerFinished` on the records that a server sends.
use tlsscan.Base.{
  ℕ, zero, suc, ◌<◌, Bool, false, List, [], ◌∷◌, ◌++◌, length, ltb, if◌then◌else◌, ◌≡◌, ◌≢◌, ◌∙◌,
  refl, ap, arith,
}
use tlsscan.Wire.{Bytes}
use tlsscan.Wire.Headers.{framed}
use tlsscan.Net.{Conn, Result, ok, err, Io, pure, read_full}
use tlsscan.Net.Full.{flat}
use tlsscan.Net.Record.{read_record_header}
use tlsscan.Net.Framed.{header-framed, bytes-append}
use tlsscan.Net.Stream.{
  Parsed, got, starved, refused, Parser, then_parse, Agrees, Implements, bytes, header,
  read_full-Implements, pure-Implements, >>=-Implements, read_record_header-Implements,
}
use tlsscan.Probe.Stream.{if-Implements}
use tlsscan.Session.Finish.{Outcome, rejected, Round, stop, go_on, round, continue, finished_loop}

abbrev pub after_round : Round → (Bool → Outcome) → Outcome
after_round (stop o) k = o
after_round (go_on b) k = k b

-- The types of the records that follow: what is said of them in at most `n` rounds.
abbrev pub outcome_of : ℕ → Bool → List ℕ → Outcome
outcome_of zero saw_ccs ts = rejected
outcome_of (suc n) saw_ccs [] = rejected
outcome_of (suc n) saw_ccs (t ∷ ts) = after_round (round t saw_ccs) (λ b. outcome_of n b ts)

-- Records, as a server frames them.
abbrev pub wire : ℕ → List (ℕ × Bytes) → Bytes
wire version [] = []
wire version ((t, f) ∷ rs) = framed version t f ++ wire version rs

abbrev pub types : List (ℕ × Bytes) → List ℕ
types [] = []
types ((t, f) ∷ rs) = t ∷ types rs

abbrev pub Fit : List (ℕ × Bytes) → Type 0
Fit [] = Unit
Fit ((t, f) ∷ rs) = (length f < 65536) × Fit rs

-- What `establishCBCSession` learns: false on every error.
abbrev pub decided : Result Outcome × Conn → Outcome
decided (ok o, c) = o
decided (err e, c) = rejected

abbrev parsed_outcome : Parsed Outcome → Outcome
parsed_outcome (got o s) = o
parsed_outcome starved = rejected
parsed_outcome (refused e) = rejected

abbrev pub continue_parser : Round → (Bool → Parser Outcome) → Parser Outcome
continue_parser (stop o) k = got o
continue_parser (go_on b) k = k b

abbrev pub body_parser : Bool → (Bool → Parser Outcome) → ℕ × ℕ × ℕ → Parser Outcome
body_parser saw_ccs k h =
    if ltb 65536 h.2
    then got rejected
    else (λ s. then_parse (bytes h.2 s) (λ body. continue_parser (round h.0 saw_ccs) k))

abbrev pub finished_parser : ℕ → Bool → Parser Outcome
finished_parser zero saw_ccs = got rejected
finished_parser (suc n) saw_ccs =
    λ s. then_parse (header s) (body_parser saw_ccs (finished_parser n))

continue-Implements :
    (r : Round) (k : Bool → Io Outcome) (l : Bool → Parser Outcome)
    → ((b : Bool) → Implements (k b) (l b))
    → Implements (continue r k) (continue_parser r l)
continue-Implements (stop o) k l h = pure-Implements o
continue-Implements (go_on b) k l h = h b

pub finished_loop-Implements :
    (n : ℕ) (saw_ccs : Bool) → Implements (finished_loop n saw_ccs) (finished_parser n saw_ccs)
unfolding finished_loop
finished_loop-Implements zero saw_ccs = pure-Implements rejected
finished_loop-Implements (suc n) saw_ccs =
    >>=-Implements read_record_header header _ (body_parser saw_ccs (finished_parser n))
      read_record_header-Implements
      (λ h.
        if-Implements (ltb 65536 h.2) (pure rejected) _ (got rejected) _ (pure-Implements rejected)
          (>>=-Implements (read_full h.2) (bytes h.2) _
            (λ body. continue_parser (round h.0 saw_ccs) (finished_parser n))
            (read_full-Implements h.2)
            (λ body.
              continue-Implements (round h.0 saw_ccs) (finished_loop n) (finished_parser n)
                (finished_loop-Implements n))))

after_round-wire :
    (r : Round) (version : ℕ) (rs : List (ℕ × Bytes)) (l : Bool → Parser Outcome)
    (k : Bool → Outcome)
    → ((b : Bool) → parsed_outcome (l b (wire version rs)) ≡ k b)
    → parsed_outcome (continue_parser r l (wire version rs)) ≡ after_round r k
after_round-wire (stop o) version rs l k h = refl
after_round-wire (go_on b) version rs l k h = h b

finished_parser-wire :
    (n : ℕ) (saw_ccs : Bool) (version : ℕ) (rs : List (ℕ × Bytes))
    → Fit rs
    → parsed_outcome (finished_parser n saw_ccs (wire version rs)) ≡ outcome_of n saw_ccs (types rs)
finished_parser-wire zero saw_ccs version rs fit = refl
finished_parser-wire (suc n) saw_ccs version [] fit = refl
finished_parser-wire (suc n) saw_ccs version ((t, f) ∷ rs) fit =
    let small : ltb 65536 (length f) ≡ false = let h = fit.0 in ground arith in
    ap (λ q. parsed_outcome (then_parse q (body_parser saw_ccs (finished_parser n))))
      (header-framed version t f (wire version rs) fit.0)
    ∙ rw (small, bytes-append f (wire version rs))
        (after_round-wire (round t saw_ccs) version rs (finished_parser n) _
          (λ b. finished_parser-wire n b version rs fit.1))

decided-Agrees :
    (c : Conn) (r : Result Outcome × Conn) (q : Parsed Outcome)
    → Agrees c r q
    → decided r ≡ parsed_outcome q
decided-Agrees c r (got o s) (ps, e, f) = ap decided e
decided-Agrees c r starved (ps, e) = ap decided e
decided-Agrees c r (refused x) (ps, e) = ap decided e

pub finished_loop-wire :
    (n : ℕ) (saw_ccs : Bool) (version : ℕ) (rs : List (ℕ × Bytes)) (c : Conn)
    → Fit rs
    → flat c.inbound ≡ wire version rs
    → decided (finished_loop n saw_ccs c) ≡ outcome_of n saw_ccs (types rs)
finished_loop-wire n saw_ccs version rs c fit s =
    decided-Agrees c _ _ (finished_loop-Implements n saw_ccs c)
    ∙ ap (λ s. parsed_outcome (finished_parser n saw_ccs s)) s
    ∙ finished_parser-wire n saw_ccs version rs fit

abbrev after_stop {ℓ} : {A : Type ℓ} → Round → A → (Bool → A) → A
after_stop (stop o) a k = a
after_stop (go_on b) a k = k b

-- The records that are left when the loop ends.
abbrev pub left_of : ℕ → Bool → List (ℕ × Bytes) → List (ℕ × Bytes)
left_of zero saw_ccs rs = rs
left_of (suc n) saw_ccs [] = []
left_of (suc n) saw_ccs ((t, f) ∷ rs) = after_stop (round t saw_ccs) rs (λ b. left_of n b rs)

-- Where the parser returns, exactly these bytes are left.
abbrev Leaves : Parsed Outcome → Bytes → Type 0
Leaves (got o s) rest = s ≡ rest
Leaves starved rest = Unit
Leaves (refused e) rest = Unit

round-Leaves :
    (r : Round) (version : ℕ) (rs : List (ℕ × Bytes)) (l : Bool → Parser Outcome)
    (k : Bool → List (ℕ × Bytes))
    → ((b : Bool) → Leaves (l b (wire version rs)) (wire version (k b)))
    → Leaves (continue_parser r l (wire version rs)) (wire version (after_stop r rs k))
round-Leaves (stop o) version rs l k h = refl
round-Leaves (go_on b) version rs l k h = h b

finished_parser-Leaves :
    (n : ℕ) (saw_ccs : Bool) (version : ℕ) (rs : List (ℕ × Bytes))
    → Fit rs
    → Leaves (finished_parser n saw_ccs (wire version rs)) (wire version (left_of n saw_ccs rs))
finished_parser-Leaves zero saw_ccs version rs fit = refl
finished_parser-Leaves (suc n) saw_ccs version [] fit = tt
finished_parser-Leaves (suc n) saw_ccs version ((t, f) ∷ rs) fit =
    let small : ltb 65536 (length f) ≡ false = let h = fit.0 in ground arith in
    rw (header-framed version t f (wire version rs) fit.0) (
      rw (small, bytes-append f (wire version rs))
        (round-Leaves (round t saw_ccs) version rs (finished_parser n) _
          (λ b. finished_parser-Leaves n b version rs fit.1)))

accepted-Agrees :
    (c : Conn) (r : Result Outcome × Conn) (q : Parsed Outcome) (rest : Bytes)
    → Agrees c r q
    → Leaves q rest
    → decided r ≢ rejected
    → (ps : List Bytes) × (r ≡ (ok (decided r), record c { inbound = ps })) × (flat ps ≡ rest)
accepted-Agrees c r (got o s) rest (ps, e, f) l ne = (ps, rw e refl, f ∙ l)
accepted-Agrees c r starved rest (ps, e) l ne = absurd (ne (ap decided e))
accepted-Agrees c r (refused x) rest (ps, e) l ne = absurd (ne (ap decided e))

-- A loop that accepts leaves exactly the records that it has not read.
pub finished_loop-left :
    (n : ℕ) (saw_ccs : Bool) (version : ℕ) (rs : List (ℕ × Bytes)) (c : Conn)
    → Fit rs
    → flat c.inbound ≡ wire version rs
    → decided (finished_loop n saw_ccs c) ≢ rejected
    → (ps : List Bytes) × (finished_loop n saw_ccs c
        ≡ (ok (decided (finished_loop n saw_ccs c)), record c { inbound = ps }))
      × (flat ps ≡ wire version (left_of n saw_ccs rs))
finished_loop-left n saw_ccs version rs c fit s ne =
    accepted-Agrees c _ (finished_parser n saw_ccs (wire version rs)) _
      (rw s at (finished_loop-Implements n saw_ccs c))
      (finished_parser-Leaves n saw_ccs version rs fit) ne

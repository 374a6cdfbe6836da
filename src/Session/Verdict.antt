-- ===== src/Session/Verdict.antt =====
-- internal/handshake/cbc.go: which records make `expectServerFinished` accept a server.
use tlsscan.Base.{
  ℕ, zero, suc, ◌+◌, ◌≤◌, true, false, List, [], ◌∷◌, ◌++◌, length, ◌==◌, ◌≡◌, ◌≢◌, ◌∙◌, ◌↔◌, refl,
  sym, ap, arith, inl, inr, Bool-cases,
}
use tlsscan.Wire.{Bytes}
use tlsscan.Wire.Headers.{
  record_alert, record_application_data, record_change_cipher_spec, record_handshake,
}
use tlsscan.Net.{Conn}
use tlsscan.Net.Full.{flat}
use tlsscan.Session.Finish.{Outcome, rejected, Round, round, expect_server_finished}
use tlsscan.Session.Acceptance.{
  after_round, outcome_of, wire, types, Fit, decided, finished_loop-wire,
}
use tlsscan.Session.Rounds.{
  Quiet, Waiting, Finishes, by_finished, by_data, Ends, Accepts, View, is_alert, is_ccs,
  is_finished, is_quiet, is_waiting, view,
}

Ends-cons :
    {o : Outcome} {n t : ℕ} {ts : List ℕ}
    → (t == record_alert) ≡ false
    → (t == record_handshake) ≡ false
    → (t == record_application_data) ≡ false
    → Ends o n ts
    → Ends o (suc n) (t ∷ ts)
Ends-cons {o} {n} {t} {ts} a b c e = record {
  between = t ∷ e.between;
  last = e.last;
  after = e.after;
  split = ap (λ l. t ∷ l) e.split;
  waiting = (a, b, c, e.waiting);
  finishes = e.finishes;
  in_time = let h = e.in_time in omega arith;
}

one_more_after :
    {o : Outcome} {n t : ℕ} {ts : List ℕ} {r : Round}
    → o ≢ rejected
    → (outcome_of n true ts ≡ o → Ends o n ts)
    → View t true r
    → after_round r (λ b. outcome_of n b ts) ≡ o
    → Ends o (suc n) (t ∷ ts)
one_more_after ne go is_alert e = absurd (ne (sym e))
one_more_after ne go (is_ccs q) e = Ends-cons (ground arith) (ground arith) (ground arith) (go e)
one_more_after {n = n} {t = t} {ts = ts} ne go (is_finished f) e = record {
  between = [];
  last = t;
  after = ts;
  split = refl;
  waiting = tt;
  finishes = rw e at f;
  in_time = omega arith;
}
one_more_after ne go (is_waiting a b c) e = Ends-cons a b c (go e)

outcome_of-Ends :
    (o : Outcome) (n : ℕ) (ts : List ℕ) → o ≢ rejected → outcome_of n true ts ≡ o → Ends o n ts
outcome_of-Ends o zero ts ne e = absurd (ne (sym e))
outcome_of-Ends o (suc n) [] ne e = absurd (ne (sym e))
outcome_of-Ends o (suc n) (t ∷ ts) ne e =
    one_more_after ne (outcome_of-Ends o n ts ne) (view t true) e

one_more_before :
    {o : Outcome} {n t : ℕ} {ts : List ℕ} {r : Round}
    → o ≢ rejected
    → (outcome_of n false ts ≡ o → Accepts o n ts)
    → View t false r
    → after_round r (λ b. outcome_of n b ts) ≡ o
    → Accepts o (suc n) (t ∷ ts)
one_more_before ne go is_alert e = absurd (ne (sym e))
one_more_before {o} {n} {t} {ts} ne go (is_ccs q) e = record {
  before = [];
  rest = ts;
  room = n;
  split = ap (λ x. x ∷ ts) q;
  quiet = tt;
  ends = outcome_of-Ends o n ts ne e;
  in_time = omega arith;
}
one_more_before {t = t} ne go (is_quiet a b) e =
    let s = go e in
    record {
      before = t ∷ s.before;
      rest = s.rest;
      room = s.room;
      split = ap (λ l. t ∷ l) s.split;
      quiet = (a, b, s.quiet);
      ends = s.ends;
      in_time = let h = s.in_time in omega arith;
    }

outcome_of-Accepts :
    (o : Outcome) (n : ℕ) (ts : List ℕ) → o ≢ rejected → outcome_of n false ts ≡ o → Accepts o n ts
outcome_of-Accepts o zero ts ne e = absurd (ne (sym e))
outcome_of-Accepts o (suc n) [] ne e = absurd (ne (sym e))
outcome_of-Accepts o (suc n) (t ∷ ts) ne e =
    one_more_before ne (outcome_of-Accepts o n ts ne) (view t false) e

outcome_finished :
    (n : ℕ) (t : ℕ) (ts : List ℕ) (o : Outcome)
    → Finishes t o
    → outcome_of (suc n) true (t ∷ ts) ≡ o
unfolding round
outcome_finished n _ ts _ by_finished = refl
outcome_finished n _ ts _ by_data = refl

-- A record that does not end the loop.
outcome_waiting :
    (n t : ℕ) (ts : List ℕ)
    → (t == record_alert) ≡ false
    → (t == record_handshake) ≡ false
    → (t == record_application_data) ≡ false
    → outcome_of (suc n) true (t ∷ ts) ≡ outcome_of n true ts
unfolding round
outcome_waiting n t ts a b c = elim (Bool-cases (t == record_change_cipher_spec)) [
  | inl e ↦ rw (a, e) refl
  | inr e ↦ rw (a, e, b, c) refl
]

outcome_quiet :
    (n t : ℕ) (ts : List ℕ)
    → (t == record_alert) ≡ false
    → (t == record_change_cipher_spec) ≡ false
    → outcome_of (suc n) false (t ∷ ts) ≡ outcome_of n false ts
unfolding round
outcome_quiet n t ts a b = elim (Bool-cases (t == record_handshake)) [
  | inl e ↦ rw (a, b, e) refl
  | inr e ↦ elim (Bool-cases (t == record_application_data)) [
    | inl f ↦ rw (a, b, e, f) refl
    | inr f ↦ rw (a, b, e, f) refl
  ]
]

outcome_ends :
    (n : ℕ) (between : List ℕ) (last : ℕ) (after : List ℕ) (o : Outcome)
    → Waiting between
    → Finishes last o
    → length between + 1 ≤ n
    → outcome_of n true (between ++ last ∷ after) ≡ o
outcome_ends zero between last after o w f h = absurd (omega arith)
outcome_ends (suc n) [] last after o w f h = outcome_finished n last after o f
outcome_ends (suc n) (t ∷ between) last after o (a, b, c, w) f h =
    outcome_waiting n t (between ++ last ∷ after) a b c
    ∙ outcome_ends n between last after o w f (omega arith)

outcome_accepts :
    (n : ℕ) (before rest : List ℕ) (room : ℕ) (o : Outcome)
    → Quiet before
    → Ends o room rest
    → length before + 1 + room ≤ n
    → outcome_of n false (before ++ record_change_cipher_spec ∷ rest) ≡ o
unfolding round
outcome_accepts zero before rest room o q e h = absurd (omega arith)
outcome_accepts (suc n) [] rest room o q e h =
    let k = e.in_time in
    rw e.split (outcome_ends n e.between e.last e.after o e.waiting e.finishes (omega arith))
outcome_accepts (suc n) (t ∷ before) rest room o (a, b, q) e h =
    outcome_quiet n t (before ++ record_change_cipher_spec ∷ rest) a b
    ∙ outcome_accepts n before rest room o q e (omega arith)

-- Where all that waits on a connection is whole records, `expectServerFinished` accepts the
-- server, by a handshake record or by application data, exactly if such a record is the first of
-- the two kinds behind the first ChangeCipherSpec, is among the first six records, and no alert
-- stands before it.
pub expect_server_finished_iff :
    (o : Outcome) (version : ℕ) (rs : List (ℕ × Bytes)) (c : Conn)
    → o ≢ rejected
    → Fit rs
    → flat c.inbound ≡ wire version rs
    → (decided (expect_server_finished c) ≡ o) ↔ Accepts o 6 (types rs)
unfolding expect_server_finished
expect_server_finished_iff o version rs c ne fit s =
    let run = finished_loop-wire 6 false version rs c fit s in
    (
      λ e. outcome_of-Accepts o 6 (types rs) ne (sym run ∙ e),
      λ a.
          run
          ∙ ap (outcome_of 6 false) a.split
          ∙ outcome_accepts 6 a.before a.rest a.room o a.quiet a.ends a.in_time,
    )

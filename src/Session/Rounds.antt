-- ===== src/Session/Rounds.antt =====
-- internal/handshake/cbc.go: the rounds of `expectServerFinished`, and the sequences of records that
-- are told apart by them.
use tlsscan.Base.{
  ℕ, ◌+◌, ◌≤◌, Bool, true, false, List, [], ◌∷◌, ◌++◌, length, ◌==◌, ◌≡◌, arith, inl, inr,
  Bool-cases,
}
use tlsscan.Wire.Headers.{
  record_alert, record_application_data, record_change_cipher_spec, record_handshake,
}
use tlsscan.Session.Finish.{
  Outcome, rejected, accepted_finished, accepted_data, Round, stop, go_on, round,
}

-- Records before a ChangeCipherSpec that do not end the loop.
abbrev pub Quiet : List ℕ → Type 0
Quiet [] = Unit
Quiet (t ∷ ts) =
    ((t == record_alert) ≡ false) × ((t == record_change_cipher_spec) ≡ false) × Quiet ts

-- Records after one that do not end the loop.
abbrev pub Waiting : List ℕ → Type 0
Waiting [] = Unit
Waiting (t ∷ ts) =
    ((t == record_alert) ≡ false)
    × ((t == record_handshake) ≡ false)
    × ((t == record_application_data) ≡ false)
    × Waiting ts

pub data Finishes : ℕ → Outcome → Type 0 where
  by_finished : Finishes record_handshake accepted_finished
  by_data : Finishes record_application_data accepted_data

-- After a ChangeCipherSpec, the record that ends the loop is among the first `n`.
pub record Ends (o : Outcome) (n : ℕ) (ts : List ℕ) : Type 0 where
  pub between : List ℕ
  pub last : ℕ
  pub after : List ℕ
  pub split : ts ≡ between ++ last ∷ after
  pub waiting : Waiting between
  pub finishes : Finishes last o
  pub in_time : length between + 1 ≤ n

-- The first ChangeCipherSpec, and the record that ends the loop behind it, among the first `n`.
pub record Accepts (o : Outcome) (n : ℕ) (ts : List ℕ) : Type 0 where
  pub before : List ℕ
  pub rest : List ℕ
  pub room : ℕ
  pub split : ts ≡ before ++ record_change_cipher_spec ∷ rest
  pub quiet : Quiet before
  pub ends : Ends o room rest
  pub in_time : length before + 1 + room ≤ n

pub data View (t : ℕ) : Bool → Round → Type 0 where
  is_alert : {b : Bool} → View t b (stop rejected)
  is_ccs : {b : Bool} → t ≡ record_change_cipher_spec → View t b (go_on true)
  is_finished : {o : Outcome} → Finishes t o → View t true (stop o)
  is_quiet :
      (t == record_alert) ≡ false
      → (t == record_change_cipher_spec) ≡ false
      → View t false (go_on false)
  is_waiting :
      (t == record_alert) ≡ false
      → (t == record_handshake) ≡ false
      → (t == record_application_data) ≡ false
      → View t true (go_on true)

pub view : (t : ℕ) (b : Bool) → View t b (round t b)
unfolding round
view t true = elim (Bool-cases (t == record_alert)) [
  | inl e ↦ rw e is_alert
  | inr a ↦ elim (Bool-cases (t == record_change_cipher_spec)) [
    | inl e ↦ rw (a, e) (is_ccs (ground arith))
    | inr b ↦ elim (Bool-cases (t == record_handshake)) [
      | inl e ↦ let q : t ≡ 22 = ground arith in rw q (is_finished by_finished)
      | inr c ↦ elim (Bool-cases (t == record_application_data)) [
        | inl e ↦ let q : t ≡ 23 = ground arith in rw q (is_finished by_data)
        | inr d ↦ rw (a, b, c, d) (is_waiting a c d)
      ]
    ]
  ]
]
view t false = elim (Bool-cases (t == record_alert)) [
  | inl e ↦ rw e is_alert
  | inr a ↦ elim (Bool-cases (t == record_change_cipher_spec)) [
    | inl e ↦ rw (a, e) (is_ccs (ground arith))
    | inr b ↦ elim (Bool-cases (t == record_handshake)) [
      | inl e ↦ rw (a, b, e) (is_quiet a b)
      | inr c ↦ elim (Bool-cases (t == record_application_data)) [
        | inl e ↦ rw (a, b, c, e) (is_quiet a b)
        | inr d ↦ rw (a, b, c, d) (is_quiet a b)
      ]
    ]
  ]
]

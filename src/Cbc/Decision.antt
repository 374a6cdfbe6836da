-- ===== src/Cbc/Decision.antt =====
-- internal/handshake/cbc_oracle.go: what the verdicts mean, and when the probe may give one.
use tlsscan.Base.{
  Bool, true, false, ◌&&◌, ◌||◌, sym, Bool-cases, Option, none, some, ◌≡◌, ◌↔◌, ◌⊎◌, inl, inr, refl,
  ap, ◌∙◌, arith,
}
use mathlib.Core.Bool.{false≢true}
use tlsscan.Reaction.{Reaction, equal}
use tlsscan.Reaction.Laws.{equal_trans}
use tlsscan.Cbc.Stable.{Repeats, stable_iff}
use tlsscan.Cbc.Oracle.{
  CbcVector, vec_bad_mac, vec_bad_pad, vec_zero_len, CbcResult, all_false, classify_cbc, stable,
  applicable, with_bad_mac, with_bad_pad, with_zero_len, probe_cbc_padding_oracles,
}

-- Whether any of the four flaws is reported.
abbrev pub flagged : CbcResult → Bool
flagged r = r.golden_doodle || (r.zombie_poodle || (r.sleeping_poodle || r.cve20191559))

-- Nothing is reported exactly if the three reactions are equal to one another.
pub classify_cbc_secure :
    (bad_mac bad_pad zero_len : Reaction)
    → (flagged (classify_cbc bad_mac bad_pad zero_len) ≡ false)
      ↔ ((equal bad_mac bad_pad ≡ true) × (equal zero_len bad_pad ≡ true))
unfolding classify_cbc
classify_cbc_secure m p z = (λ h. ground (arith, equal_trans z m p), λ h. ground arith)

-- Zombie and Sleeping POODLE each come with GOLDENDOODLE and never together; GOLDENDOODLE is
-- reported exactly if the reactions to a bad MAC and to bad padding differ; CVE-2019-1559 only
-- if the reaction to zero-length padding differs from both.
pub classify_cbc_mapping :
    (bad_mac bad_pad zero_len : Reaction)
    → let r = classify_cbc bad_mac bad_pad zero_len in
      (r.zombie_poodle ≡ true → (r.golden_doodle ≡ true) × (r.sleeping_poodle ≡ false))
      × (r.sleeping_poodle ≡ true → (r.golden_doodle ≡ true) × (r.zombie_poodle ≡ false))
      × ((r.golden_doodle ≡ true) ↔ (equal bad_mac bad_pad ≡ false))
      × (r.cve20191559 ≡ true → (equal zero_len bad_pad ≡ false) × (equal zero_len bad_mac ≡ false))
unfolding classify_cbc
classify_cbc_mapping m p z = (
  λ h. ground arith,
  λ h. ground arith,
  (λ h. ground arith, λ h. ground arith),
  λ h. ground arith,
)

-- What a report rests on: a session was established, each of the three vectors was exchanged twice
-- with equal reactions, in this order, from one state of the network to the next, and the three
-- reactions are not all equal.
pub record Evidence {W : Type 0} (establish : W → Bool × W)
    (exchange : CbcVector → W → Option Reaction × W) (w : W) : Type 0 where
  pub w₁ : W
  pub w₂ : W
  pub w₃ : W
  pub w₄ : W
  pub mac_reaction : Reaction
  pub pad_reaction : Reaction
  pub zero_reaction : Reaction
  pub established : establish w ≡ (true, w₁)
  pub on_mac : Repeats exchange vec_bad_mac w₁ mac_reaction w₂
  pub on_pad : Repeats exchange vec_bad_pad w₂ pad_reaction w₃
  pub on_zero : Repeats exchange vec_zero_len w₃ zero_reaction w₄
  pub differ : (equal mac_reaction pad_reaction && equal zero_reaction pad_reaction) ≡ false

told : (m p z : Reaction) → flagged (classify_cbc m p z) ≡ true → (equal m p && equal z p) ≡ false
unfolding classify_cbc
told m p z h = ground arith

told_flagged :
    (m p z : Reaction) → (equal m p && equal z p) ≡ false → flagged (classify_cbc m p z) ≡ true
told_flagged m p z h = elim (Bool-cases (flagged (classify_cbc m p z))) [
  | inl e ↦ e
  | inr e ↦ let (a, b) = (classify_cbc_secure m p z).0 e in absurd (ground (arith, a, b))
]

Pair-cases :
    {A W : Type 0} (r : Option A × W)
    → ((w : W) × (r ≡ (none, w))) ⊎ ((a : A) × (w : W) × (r ≡ (some a, w)))
Pair-cases (none, w) = inl (w, refl)
Pair-cases (some a, w) = inr (a, w, refl)

Bool-pair : {W : Type 0} (r : Bool × W) → ((w : W) × (r ≡ (false, w))) ⊎ ((w : W) × (r ≡ (true, w)))
Bool-pair (false, w) = inl (w, refl)
Bool-pair (true, w) = inr (w, refl)

module _ {W : Type 0} (establish : W → Bool × W)
    (exchange : CbcVector → W → Option Reaction × W) where
  abbrev verdict : W → CbcResult
  verdict w = (probe_cbc_padding_oracles establish exchange w).0

  abbrev from_session : Bool × W → CbcResult
  from_session r = (applicable establish exchange r).0

  abbrev from_mac : Option Reaction × W → CbcResult
  from_mac r = (with_bad_mac establish exchange r).0

  abbrev from_pad : Reaction → Option Reaction × W → CbcResult
  from_pad m r = (with_bad_pad establish exchange m r).0

  abbrev from_zero : Reaction → Reaction → Option Reaction × W → CbcResult
  from_zero m p r = (with_zero_len establish exchange m p r).0

  no_session : (w w₁ : W) → establish w ≡ (false, w₁) → verdict w ≡ all_false
  unfolding probe_cbc_padding_oracles applicable with_bad_mac with_bad_pad with_zero_len
  no_session w w₁ e = ap from_session e

  no_mac :
      (w w₁ w₂ : W)
      → establish w ≡ (true, w₁)
      → stable exchange vec_bad_mac 2 w₁ ≡ (none, w₂)
      → verdict w ≡ all_false
  unfolding probe_cbc_padding_oracles applicable with_bad_mac with_bad_pad with_zero_len
  no_mac w w₁ w₂ e m = ap from_session e ∙ ap from_mac m

  no_pad :
      (w w₁ w₂ w₃ : W) (r : Reaction)
      → establish w ≡ (true, w₁)
      → stable exchange vec_bad_mac 2 w₁ ≡ (some r, w₂)
      → stable exchange vec_bad_pad 2 w₂ ≡ (none, w₃)
      → verdict w ≡ all_false
  unfolding probe_cbc_padding_oracles applicable with_bad_mac with_bad_pad with_zero_len
  no_pad w w₁ w₂ w₃ r e m p = ap from_session e ∙ ap from_mac m ∙ ap (from_pad r) p

  on_last :
      (w w₁ w₂ w₃ : W) (r q : Reaction)
      → establish w ≡ (true, w₁)
      → stable exchange vec_bad_mac 2 w₁ ≡ (some r, w₂)
      → stable exchange vec_bad_pad 2 w₂ ≡ (some q, w₃)
      → verdict w ≡ from_zero r q (stable exchange vec_zero_len 2 w₃)
  unfolding probe_cbc_padding_oracles applicable with_bad_mac with_bad_pad with_zero_len
  on_last w w₁ w₂ w₃ r q e m p = ap from_session e ∙ ap from_mac m ∙ ap (from_pad r) p

  unflagged : (r : CbcResult) {A : Type 0} → r ≡ all_false → flagged r ≡ true → A
  unflagged r e h = absurd (false≢true (rw e at h))

  sound : (w : W) → flagged (verdict w) ≡ true → Evidence establish exchange w
  unfolding probe_cbc_padding_oracles applicable with_bad_mac with_bad_pad with_zero_len
  sound w h = elim (Bool-pair (establish w)) [
    | inl (w₁, e) ↦ unflagged _ (no_session w w₁ e) h
    | inr (w₁, e) ↦ elim (Pair-cases (stable exchange vec_bad_mac 2 w₁)) [
      | inl (w₂, m) ↦ unflagged _ (no_mac w w₁ w₂ e m) h
      | inr (r, w₂, m) ↦ elim (Pair-cases (stable exchange vec_bad_pad 2 w₂)) [
        | inl (w₃, p) ↦ unflagged _ (no_pad w w₁ w₂ w₃ r e m p) h
        | inr (q, w₃, p) ↦ elim (Pair-cases (stable exchange vec_zero_len 2 w₃)) [
          | inl (w₄, z) ↦ unflagged _ (on_last w w₁ w₂ w₃ r q e m p ∙ ap (from_zero r q) z) h
          | inr (o, w₄, z) ↦ record {
            w₁ = w₁;
            w₂ = w₂;
            w₃ = w₃;
            w₄ = w₄;
            mac_reaction = r;
            pad_reaction = q;
            zero_reaction = o;
            established = e;
            on_mac = (stable_iff exchange vec_bad_mac 1 w₁ r w₂).0 m;
            on_pad = (stable_iff exchange vec_bad_pad 1 w₂ q w₃).0 p;
            on_zero = (stable_iff exchange vec_zero_len 1 w₃ o w₄).0 z;
            differ =
                told r q o
                  (ap flagged (sym (on_last w w₁ w₂ w₃ r q e m p ∙ ap (from_zero r q) z)) ∙ h);
          }
        ]
      ]
    ]
  ]

  complete : (w : W) → Evidence establish exchange w → flagged (verdict w) ≡ true
  unfolding with_zero_len
  complete w h =
      let m = (stable_iff exchange vec_bad_mac 1 h.w₁ h.mac_reaction h.w₂).1 h.on_mac in
      let p = (stable_iff exchange vec_bad_pad 1 h.w₂ h.pad_reaction h.w₃).1 h.on_pad in
      let z = (stable_iff exchange vec_zero_len 1 h.w₃ h.zero_reaction h.w₄).1 h.on_zero in
      ap flagged (
        on_last w h.w₁ h.w₂ h.w₃ h.mac_reaction h.pad_reaction h.established m p
        ∙ ap (from_zero h.mac_reaction h.pad_reaction) z)
      ∙ told_flagged h.mac_reaction h.pad_reaction h.zero_reaction h.differ

  -- `ProbeCBCPaddingOracles` reports some of the four flaws exactly if a session is established,
  -- then each of the three vectors, bad MAC, bad padding and zero length, is exchanged twice, one
  -- after the other, with equal reactions, and the three reactions are not all equal.
  pub probe_cbc_iff : (w : W) → (flagged (verdict w) ≡ true) ↔ Evidence establish exchange w
  probe_cbc_iff w = (sound w, complete w)

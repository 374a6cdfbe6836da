-- ===== src/Cbc/Stable.antt =====
-- `stableCBCReaction` (cbc_oracle.go), the same loop as `stableSignature` (robot.go): when the
-- repetitions of an exchange give a reaction.
use tlsscan.Base.{
  inr, inl, ◌⊎◌, ◌↔◌, Bool-cases, ℕ, zero, suc, true, Option, none, some, ◌≡◌, ◌∙◌, ap, refl,
}
use mathlib.Core.Option.{none-ne-some, some-injective}
use tlsscan.Reaction.{Reaction, equal}
use tlsscan.Reaction.Laws.{equal_refl}
use tlsscan.Cbc.Oracle.{settle, start_stable, stable_rest, stable}

-- `n` exchanges in a row, each on the network that the last one left, and each with a reaction
-- equal to `first`.
pub data Reproduced {W V : Type 0} (exchange : V → W → Option Reaction × W) (vec : V)
    (first : Reaction) : ℕ → W → W → Type 0 where
  done : {w w' : W} → w ≡ w' → Reproduced exchange vec first zero w w'
  again :
      {n : ℕ} {w w' : W} (w₁ : W) (r : Reaction)
      → exchange vec w ≡ (some r, w₁)
      → equal r first ≡ true
      → Reproduced exchange vec first n w₁ w'
      → Reproduced exchange vec first (suc n) w w'

Outcome-cases :
    {A W : Type 0} (r : Option A × W)
    → ((w : W) × (r ≡ (none, w))) ⊎ ((a : A) × (w : W) × (r ≡ (some a, w)))
Outcome-cases (none, w) = inl (w, refl)
Outcome-cases (some a, w) = inr (a, w, refl)

module _ {W V : Type 0} (exchange : V → W → Option Reaction × W) (vec : V) where
  settle-some :
      (next : W → Option Reaction × W) (first : Reaction) (r : Option Reaction × W) {a : Reaction}
      {w' : W}
      → settle next first r ≡ (some a, w')
      → (b : Reaction) × (w₁ : W) × (r ≡ (some b, w₁))
        × (equal b first ≡ true)
        × (next w₁ ≡ (some a, w'))
  unfolding settle
  settle-some next first (none, w) {a} h = absurd (none-ne-some a (ap (λ q. q.0) h))
  settle-some next first (some b, w) {a} h = elim (Bool-cases (equal b first)) [
    | inl e ↦ (b, w, refl, e, rw (e, settle) at h)
    | inr e ↦ absurd (none-ne-some a (ap (λ q. q.0) (rw (e, settle) at h)))
  ]

  rest-Reproduced :
      (n : ℕ) (first : Reaction) (w : W) {a : Reaction} {w' : W}
      → stable_rest exchange vec n first w ≡ (some a, w')
      → (first ≡ a) × Reproduced exchange vec first n w w'
  unfolding stable_rest
  rest-Reproduced zero first w h = (some-injective _ _ (ap (λ q. q.0) h), done (ap (λ q. q.1) h))
  rest-Reproduced (suc n) first w h =
      let (b, w₁, e, same, later) =
        settle-some (stable_rest exchange vec n first) first (exchange vec w) h in
      let (q, r) = rest-Reproduced n first w₁ later in (q, again w₁ b e same r)

  Reproduced-rest :
      {first : Reaction} {n : ℕ} {w w' : W}
      → Reproduced exchange vec first n w w'
      → stable_rest exchange vec n first w ≡ (some first, w')
  unfolding stable_rest settle
  Reproduced-rest (done e) = rw e
  Reproduced-rest {first} (again w₁ b e same r) =
      ap (settle (stable_rest exchange vec _ first) first) e ∙ rw (same, settle) (Reproduced-rest r)

  -- The loop over at least one repetition gives a reaction exactly if the first exchange has
  -- that reaction and every further one has a reaction equal to it, each on the network as the
  -- last one left it.
  pub stable_iff :
      (n : ℕ) (w : W) (a : Reaction) (w' : W)
      → (stable exchange vec (suc n) w ≡ (some a, w'))
        ↔ ((w₁ : W) × (exchange vec w ≡ (some a, w₁)) × Reproduced exchange vec a n w₁ w')
  unfolding stable start_stable
  stable_iff n w a w' = (stable_sound (exchange vec w) refl, stable_complete)
    where
      stable_sound :
          (r : Option Reaction × W)
          → exchange vec w ≡ r
          → start_stable exchange vec n r ≡ (some a, w')
          → (w₁ : W) × (exchange vec w ≡ (some a, w₁)) × Reproduced exchange vec a n w₁ w'
      stable_sound (none, w₁) e h = absurd (none-ne-some a (ap (λ q. q.0) h))
      stable_sound (some b, w₁) e h =
          let (q, r) = rest-Reproduced n b w₁ h in (w₁, rw q at e, rw q at r)

      stable_complete :
          ((w₁ : W) × (exchange vec w ≡ (some a, w₁)) × Reproduced exchange vec a n w₁ w')
          → stable exchange vec (suc n) w ≡ (some a, w')
      stable_complete (w₁, e, r) = ap (start_stable exchange vec n) e ∙ Reproduced-rest r

-- Two exchanges in a row, the second with a reaction equal to the first one, which is `a`.
abbrev pub Repeats : {W V : Type 0} → (V → W → Option Reaction × W) → V → W → Reaction → W → Type 0
Repeats {W} exchange vec w a w' =
    (w₁ : W) × (exchange vec w ≡ (some a, w₁)) × Reproduced exchange vec a 1 w₁ w'

-- An exchange that always has the same reaction settles on it.
pub stable-steady :
    {V : Type 0} (exchange : V → ℕ → Option Reaction × ℕ) (vec : V) (r : Reaction)
    → ((w : ℕ) → exchange vec w ≡ (some r, suc w))
    → (w : ℕ) → stable exchange vec 2 w ≡ (some r, suc (suc w))
unfolding stable start_stable stable_rest settle
stable-steady exchange vec r steady w =
    rw (steady w, start_stable) (rw (steady (suc w), settle) (rw (equal_refl r)))

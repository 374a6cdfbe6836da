-- ===== src/Robot/Decision.antt =====
-- internal/handshake/robot.go: when `ProbeROBOT` reports an oracle.
use tlsscan.Base.{
  inl, inr, none, refl, Bool-cases, ◌∙◌, ◌↔◌, ap, true, Bool, false, List, [], ◌∷◌, Option, some,
  ◌≡◌,
}
use mathlib.Core.Bool.{false≢true}
use tlsscan.Reaction.{Reaction, equal}
use tlsscan.Cbc.Oracle.{stable}
use tlsscan.Cbc.Stable.{Repeats, stable_iff}
use tlsscan.Robot.{
  vec_correct, vec_00_at_wrong_pms_pos, with_baseline, vec_00_in_padding, vec_no_00, with_key,
  compare_all, is_correct, probe_robot, compare_with, vec_wrong_first_bytes, RobotVectorKind,
}

-- The vectors that are compared with the correct one.
abbrev pub malformed : List RobotVectorKind
malformed = vec_wrong_first_bytes ∷ vec_no_00 ∷ vec_00_in_padding ∷ vec_00_at_wrong_pms_pos ∷ []

module _ {W : Type 0} (discover : W → Bool × W)
    (exchange : RobotVectorKind → W → Option Reaction × W) where
  -- Each of the vectors in turn has equal signatures in two exchanges, which differ from `correct`.
  pub data Distinct (correct : Reaction) : List RobotVectorKind → W → W → Type 0 where
    finished : {w w' : W} → w ≡ w' → Distinct correct [] w w'
    differs :
        {kinds : List RobotVectorKind} {w w' : W} (kind : RobotVectorKind) (w₁ : W) (sig : Reaction)
        → Repeats exchange kind w sig w₁
        → equal sig correct ≡ false
        → Distinct correct kinds w₁ w'
        → Distinct correct (kind ∷ kinds) w w'

  compare_with-true :
      (next : W → Bool × W) (correct : Reaction) (r : Option Reaction × W) {w' : W}
      → compare_with discover exchange next correct r ≡ (true, w')
      → (sig : Reaction) × (w₁ : W) × (r ≡ (some sig, w₁))
        × (equal sig correct ≡ false)
        × (next w₁ ≡ (true, w'))
  unfolding compare_with
  compare_with-true next correct (none, w) h = absurd (false≢true (ap (λ q. q.0) h))
  compare_with-true next correct (some sig, w) h = elim (Bool-cases (equal sig correct)) [
    | inl e ↦ absurd (false≢true (ap (λ q. q.0) (rw (e, compare_with) at h)))
    | inr e ↦ (sig, w, refl, e, rw (e, compare_with) at h)
  ]

  abbrev AreMalformed : List RobotVectorKind → Type 0
  AreMalformed [] = Unit
  AreMalformed (k ∷ ks) = (is_correct k ≡ false) × AreMalformed ks

  compare_all_sound :
      (ks : List RobotVectorKind) (correct : Reaction) (w : W) {w' : W}
      → AreMalformed ks
      → compare_all discover exchange ks correct w ≡ (true, w')
      → Distinct correct ks w w'
  unfolding compare_all
  compare_all_sound [] correct w m h = finished (ap (λ q. q.1) h)
  compare_all_sound (k ∷ ks) correct w m h =
      let (sig, w₁, e, d, later) =
        compare_with-true (compare_all discover exchange ks correct) correct (stable exchange k 2 w)
          (rw (m.0, compare_all) at h) in
      differs k w₁ sig ((stable_iff exchange k 1 w sig w₁).0 e) d
        (compare_all_sound ks correct w₁ m.1 later)

  compare_all_complete :
      {correct : Reaction} {ks : List RobotVectorKind} {w w' : W}
      → AreMalformed ks
      → Distinct correct ks w w'
      → compare_all discover exchange ks correct w ≡ (true, w')
  unfolding compare_all compare_with
  compare_all_complete m (finished e) = rw e
  compare_all_complete {correct} m (differs {kinds} k w₁ sig e d rest) =
      rw (m.0, compare_all)
        (ap (compare_with discover exchange (compare_all discover exchange kinds correct) correct)
            ((stable_iff exchange k 1 _ sig w₁).1 e)
          ∙ rw (d, compare_with) (compare_all_complete m.1 rest))

  -- `ProbeROBOT` reports an oracle exactly if the server shows an RSA key, two exchanges of the
  -- correct vector in a row have equal signatures, and for each of the four malformed vectors in
  -- turn so have two exchanges, with a signature that differs from the one of the correct vector.
  pub probe_robot_iff :
      (w w' : W)
      → (probe_robot discover exchange w ≡ (true, w')) ↔ (
          (w₁ : W) × (w₂ : W) × (correct : Reaction) × (discover w ≡ (true, w₁))
          × Repeats exchange vec_correct w₁ correct w₂
          × Distinct correct malformed w₂ w')
  unfolding probe_robot with_key with_baseline compare_all
  probe_robot_iff w w' = (sound (discover w) refl, complete)
    where
      baseline :
          (w₁ : W) (r : Option Reaction × W)
          → stable exchange vec_correct 2 w₁ ≡ r
          → discover w ≡ (true, w₁)
          → with_baseline discover exchange r ≡ (true, w')
          → (w₁ : W) × (w₂ : W) × (correct : Reaction) × (discover w ≡ (true, w₁))
            × Repeats exchange vec_correct w₁ correct w₂
            × Distinct correct malformed w₂ w'
      baseline w₁ (none, w₂) e d h = absurd (false≢true (ap (λ q. q.0) h))
      baseline w₁ (some c, w₂) e d h = (
        w₁,
        w₂,
        c,
        d,
        (stable_iff exchange vec_correct 1 w₁ c w₂).0 e,
        compare_all_sound malformed c w₂ (refl, (refl, (refl, (refl, tt)))) h,
      )

      sound :
          (r : Bool × W)
          → discover w ≡ r
          → with_key discover exchange r ≡ (true, w')
          → (w₁ : W) × (w₂ : W) × (correct : Reaction) × (discover w ≡ (true, w₁))
            × Repeats exchange vec_correct w₁ correct w₂
            × Distinct correct malformed w₂ w'
      sound (false, w₁) d h = absurd (false≢true (ap (λ q. q.0) h))
      sound (true, w₁) d h = baseline w₁ (stable exchange vec_correct 2 w₁) refl d h

      complete :
          ((w₁ : W) × (w₂ : W) × (correct : Reaction) × (discover w ≡ (true, w₁))
            × Repeats exchange vec_correct w₁ correct w₂
            × Distinct correct malformed w₂ w')
          → probe_robot discover exchange w ≡ (true, w')
      complete (w₁, w₂, c, d, e, rest) =
          ap (with_key discover exchange) d
          ∙ ap (with_baseline discover exchange) ((stable_iff exchange vec_correct 1 w₁ c w₂).1 e)
          ∙ compare_all_complete {ks = malformed} (refl, (refl, (refl, (refl, tt)))) rest

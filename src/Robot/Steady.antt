-- ===== src/Robot/Steady.antt =====
-- internal/handshake/robot.go: the decision of the ROBOT probe, where every exchange with a vector has
-- the same reaction.
use tlsscan.Base.{
  ℕ, suc, Bool, true, not, ◌&&◌, List, [], ◌∷◌, Option, some, if◌then◌else◌, ◌≡◌, ◌∙◌, refl, ap,
  inl, inr, Bool-cases,
}
use tlsscan.Reaction.{Reaction, equal}
use tlsscan.Robot.{
  RobotVectorKind, vec_correct, all_robot_vectors, is_correct, compare_with, compare_all,
  with_baseline, with_key, probe_robot,
}
use tlsscan.Cbc.Stable.{stable-steady}

-- An exchange that always has the reaction `sig` of its vector.
module _ (discover : ℕ → Bool × ℕ) (exchange : RobotVectorKind → ℕ → Option Reaction × ℕ)
    (sig : RobotVectorKind → Reaction)
    (steady : (kind : RobotVectorKind) (w : ℕ) → exchange kind w ≡ (some (sig kind), suc w)) where
  unfoldable pub all_differ : List RobotVectorKind → Reaction → Bool
  all_differ [] correct = true
  all_differ (k ∷ ks) correct =
      if is_correct k
      then all_differ ks correct
      else not (equal (sig k) correct) && all_differ ks correct

  compare_all_lem :
      (ks : List RobotVectorKind) (correct : Reaction) (w : ℕ)
      → (compare_all discover exchange ks correct w).0 ≡ all_differ ks correct
  unfolding compare_all compare_with all_differ
  compare_all_lem [] correct w = refl
  compare_all_lem (k ∷ ks) correct w = elim (Bool-cases (is_correct k)) [
    | inl e ↦ rw (e, compare_all) (compare_all_lem ks correct w)
    | inr e ↦ elim (Bool-cases (equal (sig k) correct)) [
      | inl same ↦
          rw (e, compare_all)
            (rw (stable-steady exchange k (sig k) (steady k) w, compare_with) (rw same refl))
      | inr other ↦
          rw (e, compare_all)
            (rw (stable-steady exchange k (sig k) (steady k) w, compare_with)
              (rw other (compare_all_lem ks correct (suc (suc w)))))
    ]
  ]

  pub probe_robot-steady :
      (w w₁ : ℕ)
      → discover w ≡ (true, w₁)
      → (probe_robot discover exchange w).0 ≡ all_differ all_robot_vectors (sig vec_correct)
  unfolding probe_robot with_key with_baseline
  probe_robot-steady w w₁ e =
      ap (λ r. (with_key discover exchange r).0) e
      ∙ ap (λ r. (with_baseline discover exchange r).0)
          (stable-steady exchange vec_correct (sig vec_correct) (steady vec_correct) w₁)
      ∙ compare_all_lem all_robot_vectors (sig vec_correct) (suc (suc w₁))

-- ===== src/Scan/Internal.antt =====
-- pkg/tlsscan/guard.go: the names that `guardTarget` takes for internal, as texts.
use tlsscan.Base.{
  ◌-◌, Bool, true, false, ◌||◌, [], ◌∷◌, ◌++◌, length, take, drop, ◌≡◌, ◌⊎◌, ◌↔◌, ◌∙◌, refl, sym,
  ap, arith, inl, inr, length-append, drop-append, take-append-drop,
}
use tlsscan.Base.Text.{codes}
use tlsscan.Wire.{Bytes}
use tlsscan.Scan.Address.{same_bytes}
use tlsscan.Scan.Guard.{has_suffix, is_internal}

same_bytes_refl : (s : Bytes) → same_bytes s s ≡ true
same_bytes_refl [] = refl
same_bytes_refl (a ∷ s) = ground (arith, same_bytes_refl s)

same_bytes_sound : (s t : Bytes) → same_bytes s t ≡ true → s ≡ t
same_bytes_sound [] [] h = refl
same_bytes_sound [] (b ∷ t) h = absurd (ground arith)
same_bytes_sound (a ∷ s) [] h = absurd (ground arith)
same_bytes_sound (a ∷ s) (b ∷ t) h =
    let e : a ≡ b = ground arith in
    ap (λ x. x ∷ s) e ∙ ap (λ q. b ∷ q) (same_bytes_sound s t (ground arith))

pub same_bytes_iff : (s t : Bytes) → (same_bytes s t ≡ true) ↔ (s ≡ t)
same_bytes_iff s t = (same_bytes_sound s t, λ e. rw e (same_bytes_refl t))

-- The text ends in `suffix`.
abbrev pub EndsIn : Bytes → Bytes → Type 0
EndsIn suffix s = (before : Bytes) × (s ≡ before ++ suffix)

has_suffix_iff : (s suffix : Bytes) → (has_suffix s suffix ≡ true) ↔ EndsIn suffix s
has_suffix_iff s suffix = (sound, complete)
  where
    sound : has_suffix s suffix ≡ true → EndsIn suffix s
    sound h =
        let n = length s - length suffix in
        (
          take n s,
          sym (take-append-drop n s)
              ∙ ap (λ q. take n s ++ q) (same_bytes_sound (drop n s) suffix (ground arith)),
        )

    complete : EndsIn suffix s → has_suffix s suffix ≡ true
    complete (before, e) =
        let size = length-append before suffix in
        let cut : length (before ++ suffix) - length suffix ≡ length before = omega (arith, size) in
        let rest = drop-append (length (before ++ suffix) - length suffix) before suffix cut in
        rw e (ground (arith, size, ap (λ q. same_bytes q suffix) rest ∙ same_bytes_refl suffix))

-- `localhost`, or a name under `.localhost` or `.internal`.
pub data Internal (h : Bytes) : Type 0 where
  local : h ≡ codes "localhost" → Internal h
  under_localhost : EndsIn (codes ".localhost") h → Internal h
  under_internal : EndsIn (codes ".internal") h → Internal h

or-cases : (a b c : Bool) → (a || b || c) ≡ true → (a ≡ true) ⊎ ((b ≡ true) ⊎ (c ≡ true))
or-cases true b c h = inl refl
or-cases false true c h = inr (inl refl)
or-cases false false c h = inr (inr h)

or-some : (a b c : Bool) → (a ≡ true) ⊎ ((b ≡ true) ⊎ (c ≡ true)) → (a || b || c) ≡ true
or-some a b c (inl h) = ground (arith, h)
or-some a b c (inr (inl h)) = ground (arith, h)
or-some a b c (inr (inr h)) = ground (arith, h)

-- The test of `guardTarget` on a name.
pub is_internal_iff : (h : Bytes) → (is_internal h ≡ true) ↔ Internal h
is_internal_iff h = (sound, complete)
  where
    sound : is_internal h ≡ true → Internal h
    sound q =
        elim (or-cases (same_bytes h (codes "localhost")) (has_suffix h (codes ".localhost"))
          (has_suffix h (codes ".internal")) q) [
            | inl e ↦ local (same_bytes_sound h _ e)
            | inr (inl e) ↦ under_localhost ((has_suffix_iff h _).0 e)
            | inr (inr e) ↦ under_internal ((has_suffix_iff h _).0 e)
          ]

    complete : Internal h → is_internal h ≡ true
    complete (local e) =
        or-some (same_bytes h (codes "localhost")) (has_suffix h (codes ".localhost"))
          (has_suffix h (codes ".internal")) (inl ((same_bytes_iff h (codes "localhost")).1 e))
    complete (under_localhost e) =
        or-some (same_bytes h (codes "localhost")) (has_suffix h (codes ".localhost"))
          (has_suffix h (codes ".internal"))
          (inr (inl ((has_suffix_iff h (codes ".localhost")).1 e)))
    complete (under_internal e) =
        or-some (same_bytes h (codes "localhost")) (has_suffix h (codes ".localhost"))
          (has_suffix h (codes ".internal"))
          (inr (inr ((has_suffix_iff h (codes ".internal")).1 e)))

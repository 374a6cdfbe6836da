-- ===== src/Scan/Fallback.antt =====
-- pkg/tlsscan/vulns.go: `fallbackProbeVersion`.
use tlsscan.Base.{
  ℕ, zero, suc, ◌-◌, ◌<◌, ◌≤◌, ◌≢◌, ◌↔◌, ◌∙◌, sym, Bool, true, false, ◌&&◌, ◌||◌, List, [], ◌∷◌,
  ◌++◌, length, ltb, ◌==◌, if◌then◌else◌, ◌≡◌, ◌⊎◌, inl, inr, arith, refl,
}
use tlsscan.Wire.Headers.{version_tls10, version_tls11, version_tls12}
use tlsscan.Rating.Types.{Protocols}

abbrev supported : Protocols → List ℕ
supported p =
    (if p.tls10 then version_tls10 ∷ [] else [])
    ++ ((if p.tls11 then version_tls11 ∷ [] else [])
        ++ (if p.tls12 then version_tls12 ∷ [] else []))

-- `supported[i]`; the callers keep `i` below the length.
abbrev at : List ℕ → ℕ → ℕ
at [] i = 0
at (v ∷ vs) zero = v
at (v ∷ vs) (suc i) = at vs i

unfoldable pub fallback_probe_version : Protocols → ℕ
fallback_probe_version p =
    let versions = supported p in
    let n = length versions in
    if n == 0
    then 0
    else if p.tls13
    then at versions (n - 1)
    else if ltb n 2
    then 0
    else at versions (n - 2)

-- The server speaks the version with this wire value.
abbrev pub speaks : Protocols → ℕ → Bool
speaks p v =
    (p.tls10 && v == 0x0301)
    || (p.tls11 && v == 0x0302)
    || (p.tls12 && v == 0x0303)
    || (p.tls13 && v == 0x0304)

-- The second highest version that the server speaks: it speaks a higher one, that none exceeds, and
-- none in between.
pub data SecondTop (p : Protocols) (v : ℕ) : Type 0 where
  second_top :
      (top : ℕ)
      → speaks p v ≡ true
      → speaks p top ≡ true
      → v < top
      → ((u : ℕ) → speaks p u ≡ true → u ≤ top)
      → ((u : ℕ) → speaks p u ≡ true → u < top → u ≤ v)
      → SecondTop p v

-- The code finds it, or it gives 0 and the server does not speak two versions.
abbrev Second : Protocols → ℕ → Type 0
Second p v = ((v ≡ 0) × ((a b : ℕ) → speaks p a ≡ true → speaks p b ≡ true → a ≡ b)) ⊎ SecondTop p v

second_of :
    (p : Protocols) (a b c d : Bool)
    → p.tls10 ≡ a
    → p.tls11 ≡ b
    → p.tls12 ≡ c
    → p.tls13 ≡ d
    → Second p (fallback_probe_version p)
unfolding fallback_probe_version
second_of p false false false false e10 e11 e12 e13 =
    rw (e10, e11, e12, e13) (inl (refl, λ a b h k. ground arith))
second_of p false false false true e10 e11 e12 e13 =
    rw (e10, e11, e12, e13) (inl (refl, λ a b h k. ground arith))
second_of p false false true false e10 e11 e12 e13 =
    rw (e10, e11, e12, e13) (inl (refl, λ a b h k. ground arith))
second_of p false false true true e10 e11 e12 e13 =
    rw (e10, e11, e12, e13)
      (inr
        (second_top 0x0304 refl refl (omega arith) (λ u h. ground arith) (λ u h k. ground arith)))
second_of p false true false false e10 e11 e12 e13 =
    rw (e10, e11, e12, e13) (inl (refl, λ a b h k. ground arith))
second_of p false true false true e10 e11 e12 e13 =
    rw (e10, e11, e12, e13)
      (inr
        (second_top 0x0304 refl refl (omega arith) (λ u h. ground arith) (λ u h k. ground arith)))
second_of p false true true false e10 e11 e12 e13 =
    rw (e10, e11, e12, e13)
      (inr
        (second_top 0x0303 refl refl (omega arith) (λ u h. ground arith) (λ u h k. ground arith)))
second_of p false true true true e10 e11 e12 e13 =
    rw (e10, e11, e12, e13)
      (inr
        (second_top 0x0304 refl refl (omega arith) (λ u h. ground arith) (λ u h k. ground arith)))
second_of p true false false false e10 e11 e12 e13 =
    rw (e10, e11, e12, e13) (inl (refl, λ a b h k. ground arith))
second_of p true false false true e10 e11 e12 e13 =
    rw (e10, e11, e12, e13)
      (inr
        (second_top 0x0304 refl refl (omega arith) (λ u h. ground arith) (λ u h k. ground arith)))
second_of p true false true false e10 e11 e12 e13 =
    rw (e10, e11, e12, e13)
      (inr
        (second_top 0x0303 refl refl (omega arith) (λ u h. ground arith) (λ u h k. ground arith)))
second_of p true false true true e10 e11 e12 e13 =
    rw (e10, e11, e12, e13)
      (inr
        (second_top 0x0304 refl refl (omega arith) (λ u h. ground arith) (λ u h k. ground arith)))
second_of p true true false false e10 e11 e12 e13 =
    rw (e10, e11, e12, e13)
      (inr
        (second_top 0x0302 refl refl (omega arith) (λ u h. ground arith) (λ u h k. ground arith)))
second_of p true true false true e10 e11 e12 e13 =
    rw (e10, e11, e12, e13)
      (inr
        (second_top 0x0304 refl refl (omega arith) (λ u h. ground arith) (λ u h k. ground arith)))
second_of p true true true false e10 e11 e12 e13 =
    rw (e10, e11, e12, e13)
      (inr
        (second_top 0x0303 refl refl (omega arith) (λ u h. ground arith) (λ u h k. ground arith)))
second_of p true true true true e10 e11 e12 e13 =
    rw (e10, e11, e12, e13)
      (inr
        (second_top 0x0304 refl refl (omega arith) (λ u h. ground arith) (λ u h k. ground arith)))

pub second : (p : Protocols) → Second p (fallback_probe_version p)
second p = second_of p p.tls10 p.tls11 p.tls12 p.tls13 refl refl refl refl

SecondTop-unique : {p : Protocols} {v v' : ℕ} → SecondTop p v → SecondTop p v' → v ≡ v'
SecondTop-unique {p} {v} {v'} (second_top w sv sw lt most between)
      (second_top w' sv' sw' lt' most' between') =
    let a : w ≤ w' = most' w sw in
    let b : w' ≤ w = most w' sw' in
    let c : v' ≤ v = between v' sv' (omega arith) in
    let d : v ≤ v' = between' v sv (omega arith) in omega arith

speaks-ne : (p : Protocols) (v : ℕ) → speaks p v ≡ true → v ≢ 0
speaks-ne p v h = ground arith

-- Beside 0, the version that the code offers is the second highest one that the server speaks.
pub fallback_probe_version_iff :
    (p : Protocols) (v : ℕ) → ((fallback_probe_version p ≡ v) × (v ≢ 0)) ↔ SecondTop p v
fallback_probe_version_iff p v = (
  λ (e, pos). elim (second p) [ inl (z, few) ↦ absurd (pos (sym e ∙ z)) | inr s ↦ rw e at s ],
  λ s. (found s, positive s),
)
  where
    positive : SecondTop p v → v ≢ 0
    positive (second_top w sv sw lt most between) = speaks-ne p v sv

    found : SecondTop p v → fallback_probe_version p ≡ v
    found s = elim (second p) [ inl (z, few) ↦ absurd (alone few s) | inr t ↦ SecondTop-unique t s ]
      where
        alone : ((a b : ℕ) → speaks p a ≡ true → speaks p b ≡ true → a ≡ b) → SecondTop p v → ⊥
        alone few (second_top w sv sw lt most between) =
            let e : v ≡ w = few v w sv sw in omega arith

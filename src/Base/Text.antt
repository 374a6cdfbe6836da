-- ===== src/Base/Text.antt =====
-- Text literals as bytes (each is ASCII), and the substring test of robot.go.
use Prim.Native.Char.{code}
use Prim.Native.String.{String}
use tlsscan.Base.Test.{◌==◌, if◌then◌else◌, Bool-cases}
use mathlib.Core.Logic.{inl, inr}
use Prim.Native.Nat.{ℕ}
use mathlib.Core.Path.{◌≡◌, refl, ap}
use mathlib.Core.Bool.{Bool, true, false, ◌&&◌}
use mathlib.Core.List.{List, [], ◌∷◌, ◌++◌}
use native.Mathlib.Omega.{arith}

abbrev pub codes : String → List ℕ
codes String.[] = []
codes (String.◌∷◌ c s) = code c ∷ codes s

-- `s[i:i+len(sub)] == sub` at the front of what is left of `s`.
unfoldable pub has_prefix : List ℕ → List ℕ → Bool
has_prefix [] s = true
has_prefix (c ∷ cs) [] = false
has_prefix (c ∷ cs) (b ∷ bs) = c == b && has_prefix cs bs

-- `containsSubstr`: the loop over the places where `sub` may begin.
unfoldable pub contains_substr : List ℕ → List ℕ → Bool
unfolding has_prefix
contains_substr [] sub = has_prefix sub []
contains_substr (b ∷ bs) sub = if has_prefix sub (b ∷ bs) then true else contains_substr bs sub

has_prefix-append : (sub rest : List ℕ) → has_prefix sub (sub ++ rest) ≡ true
unfolding has_prefix
has_prefix-append [] rest = refl
has_prefix-append (c ∷ cs) rest = ground (arith, has_prefix-append cs rest)

has_prefix_split : (sub s : List ℕ) → has_prefix sub s ≡ true → (rest : List ℕ) × (s ≡ sub ++ rest)
unfolding has_prefix
has_prefix_split [] s h = (s, refl)
has_prefix_split (c ∷ cs) [] h = cc
has_prefix_split (c ∷ cs) (b ∷ bs) h =
    let (rest, e) = has_prefix_split cs bs (ground arith) in (rest, ground arith)

-- A text that has the substring is found to have it, wherever it stands.
pub contains_substr-append :
    (before sub rest : List ℕ) → contains_substr (before ++ (sub ++ rest)) sub ≡ true
unfolding contains_substr
contains_substr-append [] [] [] = refl
contains_substr-append [] [] (x ∷ rest) = refl
contains_substr-append [] (c ∷ cs) rest = ground (arith, has_prefix-append (c ∷ cs) rest)
contains_substr-append (b ∷ bs) sub rest = ground (arith, contains_substr-append bs sub rest)

-- A text that is found to have the substring has it somewhere.
pub contains_substr_split :
    (s sub : List ℕ)
    → contains_substr s sub ≡ true
    → (before : List ℕ) × (rest : List ℕ) × (s ≡ before ++ (sub ++ rest))
unfolding contains_substr
contains_substr_split [] sub h = let (rest, e) = has_prefix_split sub [] h in ([], rest, e)
contains_substr_split (b ∷ bs) sub h = elim (Bool-cases (has_prefix sub (b ∷ bs))) [
  | inl e ↦ let (rest, q) = has_prefix_split sub (b ∷ bs) e in ([], rest, q)
  | inr e ↦
      let (before, rest, q) = contains_substr_split bs sub (ground arith) in
      (b ∷ before, rest, ap (◌∷◌ b) q)
]

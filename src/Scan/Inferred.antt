-- ===== src/Scan/Inferred.antt =====
-- pkg/tlsscan/vulns.go: `indexOf`, `containsName`, `hasCBC` and `has3DES`.
use tlsscan.Base.{
  ℕ, suc, ◌<◌, Bool, true, false, ◌&&◌, ◌||◌, List, [], ◌∷◌, ◌++◌, Option, none, some, length, ltb,
  if◌then◌else◌, ◌≡◌, ◌↔◌, ◌∙◌, sym, ap, refl, arith, inl, inr, Bool-cases,
}
use tlsscan.Base.Text.{
  codes, has_prefix, contains_substr, contains_substr-append, contains_substr_split,
}
use tlsscan.Rating.Types.{CipherSummary}

-- The loop of `indexOf` from the place `i` on; `none` is -1.
unfoldable pub index_from : ℕ → List ℕ → List ℕ → Option ℕ
index_from i [] substr = if has_prefix substr [] then some i else none
index_from i (b ∷ bs) substr =
    let rest = index_from (suc i) bs substr in if has_prefix substr (b ∷ bs) then some i else rest

unfoldable pub index_of : List ℕ → List ℕ → Option ℕ
index_of s substr = index_from 0 s substr

-- `indexOf(n, substr) >= 0`.
abbrev pub is_found : Option ℕ → Bool
is_found none = false
is_found (some i) = true

unfoldable pub contains_name : List (List ℕ) → List ℕ → Bool
contains_name [] substr = false
contains_name (n ∷ ns) substr =
    (ltb 0 (length substr) && is_found (index_of n substr)) || contains_name ns substr

unfoldable pub has_cbc : CipherSummary → Bool
has_cbc c =
    contains_name c.strong (codes "CBC")
    || contains_name c.weak (codes "CBC")
    || contains_name c.insecure (codes "CBC")

unfoldable pub has_3des : CipherSummary → Bool
has_3des c =
    contains_name c.strong (codes "3DES")
    || contains_name c.weak (codes "3DES")
    || contains_name c.insecure (codes "3DES")

found-contains :
    (i : ℕ) (s substr : List ℕ) → is_found (index_from i s substr) ≡ contains_substr s substr
unfolding index_from contains_substr
found-contains i [] substr = ground arith
found-contains i (b ∷ bs) substr = ground (arith, found-contains (suc i) bs substr)

-- `indexOf` of vulns.go finds a substring in exactly the texts in which `containsSubstr` of
-- robot.go does.
pub index_of-contains_substr :
    (s substr : List ℕ) → is_found (index_of s substr) ≡ contains_substr s substr
unfolding index_of
index_of-contains_substr s substr = found-contains 0 s substr

-- Some name of the list has the substring.
pub data SomeHas (substr : List ℕ) : List (List ℕ) → Type 0 where
  here :
      {n : List ℕ} {ns : List (List ℕ)} (before rest : List ℕ)
      → n ≡ before ++ (substr ++ rest)
      → SomeHas substr (n ∷ ns)
  later : {n : List ℕ} {ns : List (List ℕ)} → SomeHas substr ns → SomeHas substr (n ∷ ns)

contains_name_complete :
    (ns : List (List ℕ)) (substr : List ℕ)
    → 0 < length substr
    → SomeHas substr ns
    → contains_name ns substr ≡ true
unfolding contains_name
contains_name_complete [] substr pos has = elim has [ ]
contains_name_complete (n ∷ ns) substr pos (here before rest e) =
    let found : is_found (index_of n substr) ≡ true =
      index_of-contains_substr n substr
      ∙ ap (λ t. contains_substr t substr) e
      ∙ contains_substr-append before substr rest in
    ground (arith, found)
contains_name_complete (n ∷ ns) substr pos (later has) =
    ground (arith, contains_name_complete ns substr pos has)

contains_name_sound :
    (ns : List (List ℕ)) (substr : List ℕ)
    → contains_name ns substr ≡ true
    → (0 < length substr) × SomeHas substr ns
unfolding contains_name
contains_name_sound [] substr h = ground arith
contains_name_sound (n ∷ ns) substr h = elim (Bool-cases (contains_name ns substr)) [
  | inl e ↦ let (pos, has) = contains_name_sound ns substr e in (pos, later has)
  | inr e ↦
      let found : is_found (index_of n substr) ≡ true = ground arith in
      let (before, rest, q) =
        contains_substr_split n substr (sym (index_of-contains_substr n substr) ∙ found) in
      (ground arith, here before rest q)
]

-- `containsName` is true exactly if the substring is not empty and some name of the list has it.
pub contains_name_iff :
    (ns : List (List ℕ)) (substr : List ℕ)
    → (contains_name ns substr ≡ true) ↔ ((0 < length substr) × SomeHas substr ns)
contains_name_iff ns substr =
    (contains_name_sound ns substr, λ (pos, has). contains_name_complete ns substr pos has)

contains_name-append :
    (ms ns : List (List ℕ)) (substr : List ℕ)
    → contains_name (ms ++ ns) substr ≡ (contains_name ms substr || contains_name ns substr)
unfolding contains_name
contains_name-append [] ns substr = refl
contains_name-append (m ∷ ms) ns substr = ground (arith, contains_name-append ms ns substr)

-- The names of a summary, whatever their class.
abbrev pub all_names : CipherSummary → List (List ℕ)
all_names c = c.strong ++ (c.weak ++ c.insecure)

or_assoc : (a b c : Bool) → (a || (b || c)) ≡ ((a || b) || c)
or_assoc a b c = ground arith

three_lists :
    (c : CipherSummary) (substr : List ℕ)
    → contains_name (all_names c) substr ≡ (
        contains_name c.strong substr
        || contains_name c.weak substr
        || contains_name c.insecure substr)
three_lists c substr = simp (contains_name-append) (
    or_assoc (contains_name c.strong substr) (contains_name c.weak substr)
      (contains_name c.insecure substr))

-- The test on the three lists, for a text that is not empty: some name of the summary has it.
some_name_iff :
    (c : CipherSummary) (substr : List ℕ)
    → 0 < length substr
    → ((contains_name c.strong substr
          || contains_name c.weak substr
          || contains_name c.insecure substr)
        ≡ true)
      ↔ SomeHas substr (all_names c)
some_name_iff c substr pos = (
  λ h. (contains_name_sound (all_names c) substr (three_lists c substr ∙ h)).1,
  λ has. sym (three_lists c substr) ∙ contains_name_complete (all_names c) substr pos has,
)

-- `hasCBC` and `has3DES` are true exactly if some name of the summary has the text.
pub has_cbc_iff : (c : CipherSummary) → (has_cbc c ≡ true) ↔ SomeHas (codes "CBC") (all_names c)
unfolding has_cbc
has_cbc_iff c = some_name_iff c (codes "CBC") (omega arith)

pub has_3des_iff : (c : CipherSummary) → (has_3des c ≡ true) ↔ SomeHas (codes "3DES") (all_names c)
unfolding has_3des
has_3des_iff c = some_name_iff c (codes "3DES") (omega arith)

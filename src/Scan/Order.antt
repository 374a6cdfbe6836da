-- ===== src/Scan/Order.antt =====
-- pkg/tlsscan/ciphers.go and pkg/tlsscan/rating.go: the rating under two orders of the catalogue.
use mathlib.Core.Logic.{∥∥₁_elim}
use mathlib.Core.Bool.{Bool-set}
use mathlib.Core.List.{Permᴰ, Perm}
use native.Mathlib.Nat.{ℕ_set}
use tlsscan.Base.{ℕ, Bool, ◌||◌, List, ◌∷◌, length, ◌≡◌, ◌∙◌, refl, sym, ap, arith, length-append}
use tlsscan.Rating.Types.{CipherSummary, ScanResult}
use tlsscan.Rating.Score.{cipher_score, breakdown}
use tlsscan.Rating.Caps.{cap_insecure, upgrade, capped, rate, Graded}
use tlsscan.Scan.Ciphers.{
  Strength, CatalogEntry, summary_of, forward_of, name_of, names_of, offers_forward, probe_ciphers,
  probe_ciphers_lem, strong_class, weak_class, insecure_class,
}

same_name :
    (k : Strength) (accepted : ℕ → Bool) {a b : CatalogEntry}
    → a ≡ b
    → length (name_of k accepted a) ≡ length (name_of k accepted b)
same_name k accepted e = ap (λ x. length (name_of k accepted x)) e

or_swap : (a b c : Bool) → (a || (b || c)) ≡ (b || (a || c))
or_swap a b c = ground arith

Permᴰ-names_of :
    (k : Strength) (accepted : ℕ → Bool) {es fs : List CatalogEntry}
    → Permᴰ es fs
    → length (names_of k accepted es) ≡ length (names_of k accepted fs)
Permᴰ-names_of k accepted Permᴰ.nil = refl
Permᴰ-names_of k accepted (Permᴰ.cons {a} {b} {l₁} {l₂} e p) = omega (
  arith,
  length-append (name_of k accepted a) (names_of k accepted l₁),
  length-append (name_of k accepted b) (names_of k accepted l₂),
  same_name k accepted e,
  Permᴰ-names_of k accepted p,
)
Permᴰ-names_of k accepted (Permᴰ.swap {a} {b} {a'} {b'} {l} d e) = omega (
  arith,
  length-append (name_of k accepted a) (names_of k accepted (b ∷ l)),
  length-append (name_of k accepted b) (names_of k accepted l),
  length-append (name_of k accepted a') (names_of k accepted (b' ∷ l)),
  length-append (name_of k accepted b') (names_of k accepted l),
  same_name k accepted d,
  same_name k accepted e,
)
Permᴰ-names_of k accepted (Permᴰ.trans p q) =
    Permᴰ-names_of k accepted p ∙ Permᴰ-names_of k accepted q

Permᴰ-offers_forward :
    (accepted : ℕ → Bool) {es fs : List CatalogEntry}
    → Permᴰ es fs
    → offers_forward accepted es ≡ offers_forward accepted fs
Permᴰ-offers_forward accepted Permᴰ.nil = refl
Permᴰ-offers_forward accepted (Permᴰ.cons e p) = rw (e, Permᴰ-offers_forward accepted p)
Permᴰ-offers_forward accepted (Permᴰ.swap {a} {b} {a'} {b'} {l} d e) =
    rw (d, e)
      (or_swap (forward_of accepted b') (forward_of accepted a') (offers_forward accepted l))
Permᴰ-offers_forward accepted (Permᴰ.trans p q) =
    Permᴰ-offers_forward accepted p ∙ Permᴰ-offers_forward accepted q

-- The result with the ciphers that were found.
abbrev pub with_ciphers : ScanResult → CipherSummary × Bool → ScanResult
with_ciphers r (c, fs) = record r { ciphers = c; forward_secrecy = fs }

module _ (c d : CipherSummary) (strong : length c.strong ≡ length d.strong)
    (weak : length c.weak ≡ length d.weak) (insecure : length c.insecure ≡ length d.insecure) where
  same_cipher_score : cipher_score c ≡ cipher_score d
  unfolding cipher_score
  same_cipher_score = rw (strong, weak, insecure)

  same_cap_insecure : (s : Graded) → cap_insecure c s ≡ cap_insecure d s
  unfolding cap_insecure
  same_cap_insecure s = rw insecure

  same_upgrade :
      (r : ScanResult) (fs : Bool) (s : Graded)
      → upgrade (with_ciphers r (c, fs)) s ≡ upgrade (with_ciphers r (d, fs)) s
  unfolding upgrade
  same_upgrade r fs s = rw (weak, insecure)

  same_rate :
      (r : ScanResult) (fs : Bool) → rate (with_ciphers r (c, fs)) ≡ rate (with_ciphers r (d, fs))
  unfolding rate capped breakdown
  same_rate r fs = rw (same_cipher_score, same_cap_insecure, same_upgrade)

-- For any two lists of entries that are permutations of one another, as two orders of the
-- catalogue, and a server whose acceptance depends on the suite alone, `rate` returns the same
-- scores, grade and caps with the ciphers that `probeCiphers` finds in either order.
pub rate_order :
    (accepted : ℕ → Bool) (r : ScanResult) (es fs : List CatalogEntry)
    → Perm es fs
    → rate (with_ciphers r (probe_ciphers accepted es))
      ≡ rate (with_ciphers r (probe_ciphers accepted fs))
rate_order accepted r es fs p =
    let names : (k : Strength) → length (names_of k accepted es) ≡ length (names_of k accepted fs) =
      λ k. ∥∥₁_elim p (ℕ_set _ _) (λ q. Permᴰ-names_of k accepted q) in
    let forward : offers_forward accepted es ≡ offers_forward accepted fs =
      ∥∥₁_elim p (Bool-set _ _) (λ q. Permᴰ-offers_forward accepted q) in
    ap (λ q. rate (with_ciphers r q)) (probe_ciphers_lem accepted es)
    ∙ same_rate (summary_of accepted es) (summary_of accepted fs) (names strong_class)
        (names weak_class) (names insecure_class) r _
    ∙ ap (λ f. rate (with_ciphers r (summary_of accepted fs, f))) forward
    ∙ ap (λ q. rate (with_ciphers r q)) (sym (probe_ciphers_lem accepted fs))

-- ===== src/Scan/Permitted.antt =====
-- pkg/tlsscan/guard.go: the targets that `guardTarget` lets pass.
use tlsscan.Base.{
  Bool, true, false, ◌≢◌, ◌∙◌, sym, List, [], ◌∷◌, Option, none, some, ◌≡◌, ◌↔◌, refl, inl, inr,
  Bool-cases,
}
use mathlib.Core.Bool.{false≢true}
use mathlib.Core.Option.{some-ne-none}
use tlsscan.Scan.Internal.{Internal, same_bytes_iff, is_internal_iff}
use tlsscan.Wire.{Bytes}
use tlsscan.Net.{Result, ok, err}
use tlsscan.Scan.Address.{same_bytes, is_blocked_ip}
use tlsscan.Scan.Guard.{
  Names, is_internal, guard_addresses, guard_resolved, guard_name, guard_target,
}

abbrev pub NoneBlocked : List Bytes → Type 0
NoneBlocked [] = Unit
NoneBlocked (ip ∷ ips) = (is_blocked_ip ip ≡ false) × NoneBlocked ips

-- The addresses of a host: the one that it writes out, or all that its name resolves to.
pub data StandsFor (names : Names) (h : Bytes) : List Bytes → Type 0 where
  literal : (ip : Bytes) → names.parse_ip h ≡ some ip → StandsFor names h (ip ∷ [])
  resolved :
      (ips : List Bytes)
      → names.parse_ip h ≡ none
      → names.lookup_ip h ≡ ok ips
      → StandsFor names h ips

pub record Permitted (names : Names) (host : Bytes) : Type 0 where
  pub is_not_empty : names.normalize host ≢ []
  pub is_not_internal : ¬ Internal (names.normalize host)
  pub addresses : List Bytes
  pub stands_for : StandsFor names (names.normalize host) addresses
  pub none_blocked : NoneBlocked addresses

-- A test that fails refutes what it stands for, and a refuted test fails.
refuted : {b : Bool} {P : Type 0} → (b ≡ true) ↔ P → b ≡ false → ¬ P
refuted i e x = false≢true (sym e ∙ i.1 x)

denied : {b : Bool} {P : Type 0} → (b ≡ true) ↔ P → ¬ P → b ≡ false
denied {b} i n = elim (Bool-cases b) [ inl e ↦ absurd (n (i.0 e)) | inr e ↦ e ]

guard_addresses_sound : (ips : List Bytes) → guard_addresses ips ≡ none → NoneBlocked ips
unfolding guard_addresses
guard_addresses_sound [] h = tt
guard_addresses_sound (ip ∷ ips) h = elim (Bool-cases (is_blocked_ip ip)) [
  | inl e ↦ absurd (some-ne-none _ (rw e at h))
  | inr e ↦ (e, guard_addresses_sound ips (rw e at h))
]

guard_addresses_complete : (ips : List Bytes) → NoneBlocked ips → guard_addresses ips ≡ none
unfolding guard_addresses
guard_addresses_complete [] n = refl
guard_addresses_complete (ip ∷ ips) (e, n) = rw e (guard_addresses_complete ips n)

module _ (names : Names) where
  -- The addresses behind a host that passes.
  guard_name_sound :
      (host h : Bytes) (o : Option Bytes)
      → names.parse_ip h ≡ o
      → guard_name names host h o ≡ none
      → (ips : List Bytes) × StandsFor names h ips × NoneBlocked ips
  guard_name_sound host h (some ip) p g = elim (Bool-cases (is_blocked_ip ip)) [
    | inl e ↦ absurd (some-ne-none _ (rw e at g))
    | inr e ↦ (ip ∷ [], literal ip p, (e, tt))
  ]
  guard_name_sound host h none p g = go (names.lookup_ip h) refl g
    where
      go :
          (r : Result (List Bytes))
          → names.lookup_ip h ≡ r
          → guard_resolved r ≡ none
          → (ips : List Bytes) × StandsFor names h ips × NoneBlocked ips
      go (ok ips) q g = (ips, resolved ips p q, guard_addresses_sound ips g)
      go (err e) q g = absurd (some-ne-none _ g)

  guard_name_complete :
      (host h : Bytes) (ips : List Bytes)
      → StandsFor names h ips
      → NoneBlocked ips
      → guard_name names host h (names.parse_ip h) ≡ none
  guard_name_complete host h _ (literal ip p) (e, n) = rw (p, e) refl
  guard_name_complete host h _ (resolved ips p q) n = rw (p, q) (guard_addresses_complete ips n)

  -- `guardTarget` lets a host pass exactly if, without its spaces and in lower case, it is not
  -- empty, is neither `localhost` nor a name under `.localhost` or `.internal`, and is the text
  -- of an address that is not refused, or a name that resolves to addresses of which none is
  -- refused.
  pub guard_target_iff : (host : Bytes) → (guard_target names host ≡ none) ↔ Permitted names host
  unfolding guard_target
  guard_target_iff host = (sound, complete)
    where
      sound : guard_target names host ≡ none → Permitted names host
      sound g = elim (Bool-cases (same_bytes (names.normalize host) [])) [
        | inl e ↦ absurd (some-ne-none _ (rw e at g))
        | inr e ↦ elim (Bool-cases (is_internal (names.normalize host))) [
          | inl f ↦ absurd (some-ne-none _ (rw (e, f) at g))
          | inr f ↦
              let (ips, s, n) =
                guard_name_sound host (names.normalize host) (names.parse_ip (names.normalize host))
                  refl (rw (e, f) at g) in
              record {
                is_not_empty = refuted (same_bytes_iff (names.normalize host) []) e;
                is_not_internal = refuted (is_internal_iff (names.normalize host)) f;
                addresses = ips;
                stands_for = s;
                none_blocked = n;
              }
        ]
      ]

      complete : Permitted names host → guard_target names host ≡ none
      complete p =
          rw
            (
              denied (same_bytes_iff (names.normalize host) []) p.is_not_empty,
              denied (is_internal_iff (names.normalize host)) p.is_not_internal,
            )
            (guard_name_complete host (names.normalize host) p.addresses p.stands_for
              p.none_blocked)

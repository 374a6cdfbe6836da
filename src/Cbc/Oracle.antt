-- ===== src/Cbc/Oracle.antt =====
-- internal/handshake/cbc_oracle.go: the four vectors, the repetition on fresh sessions, and the
-- decision. How one exchange goes depends on the network, which is the state `W`.
use tlsscan.Base.{
  ℕ, zero, suc, Bool, true, false, not, ◌&&◌, ◌||◌, ◌++◌, Option, none, some, ◌==◌, if◌then◌else◌,
}
use tlsscan.Base.Int.{ℤ, pos, negsuc}
use tlsscan.Base.Text.{codes}
use tlsscan.Wire.{Bytes}
use tlsscan.Reaction.{Reaction, plain, unset, alert, same_kind, equal}

pub data CbcVector : Type 0 where
  control vec_bad_mac vec_bad_pad vec_zero_len : CbcVector

pub record CbcResult : Type 0 where
  pub golden_doodle : Bool
  pub zombie_poodle : Bool
  pub sleeping_poodle : Bool
  pub cve20191559 : Bool

abbrev pub all_false : CbcResult
all_false = record {
  golden_doodle = false;
  zombie_poodle = false;
  sleeping_poodle = false;
  cve20191559 = false;
}

-- `forceBadMAC, padOverride` for a vector; -1 asks for valid padding.
unfoldable pub manipulation : CbcVector → Bool × ℤ
manipulation control = (false, negsuc 0)
manipulation vec_bad_mac = (true, negsuc 0)
manipulation vec_bad_pad = (false, pos 255)
manipulation vec_zero_len = (true, pos 0)

-- The content of every crafted record.
unfoldable pub request : Bytes → Bytes
request host = codes "GET / HTTP/1.1\r\nHost: " ++ (host ++ codes "\r\nConnection: close\r\n\r\n")

unfoldable pub classify_cbc : Reaction → Reaction → Reaction → CbcResult
classify_cbc bad_mac bad_pad zero_len =
    let mac_vs_pad_differ = not (equal bad_mac bad_pad) in
    let zero_vs_pad_differ = not (equal zero_len bad_pad) in
    let zero_vs_mac_differ = not (equal zero_len bad_mac) in
    if not mac_vs_pad_differ && not zero_vs_pad_differ then all_false else (record {
      golden_doodle = mac_vs_pad_differ;
      zombie_poodle =
          mac_vs_pad_differ
          && not (same_kind bad_pad.kind alert)
          && not (same_kind bad_pad.kind bad_mac.kind);
      sleeping_poodle =
          mac_vs_pad_differ
          && same_kind bad_pad.kind alert
          && same_kind bad_mac.kind alert
          && (not (bad_pad.alert_level == bad_mac.alert_level)
              || not (bad_pad.alert_desc == bad_mac.alert_desc));
      cve20191559 = zero_vs_pad_differ && zero_vs_mac_differ;
    })

-- One further round, whose reaction must equal `first`; `next` runs the rounds after it.
unfoldable pub settle :
    {W : Type 0} → (W → Option Reaction × W) → Reaction → Option Reaction × W → Option Reaction × W
settle next first (none, w) = (none, w)
settle next first (some r, w) = elim (equal r first) [ false ↦ (none, w) | true ↦ next w ]

module _ {W V : Type 0} (exchange : V → W → Option Reaction × W) where
  -- The rounds of the loop after the first, whose reaction is `first`.
  unfoldable pub stable_rest : V → ℕ → Reaction → W → Option Reaction × W
  unfolding settle
  stable_rest vec zero first w = (some first, w)
  stable_rest vec (suc n) first w = settle (stable_rest vec n first) first (exchange vec w)

  unfoldable pub start_stable : V → ℕ → Option Reaction × W → Option Reaction × W
  start_stable vec n (none, w) = (none, w)
  start_stable vec n (some first, w) = stable_rest vec n first w

  -- `stableCBCReaction` (and `stableSignature` of robot.go, the same loop): the reaction to a
  -- vector if all repetitions agree.
  unfoldable pub stable : V → ℕ → W → Option Reaction × W
  stable vec zero w = (some (plain unset), w)
  stable vec (suc n) w = start_stable vec n (exchange vec w)

module _ {W : Type 0} (establish : W → Bool × W)
    (exchange : CbcVector → W → Option Reaction × W) where
  unfoldable pub with_zero_len : Reaction → Reaction → Option Reaction × W → CbcResult × W
  with_zero_len m p (none, w) = (all_false, w)
  with_zero_len m p (some z, w) = (classify_cbc m p z, w)

  unfoldable pub with_bad_pad : Reaction → Option Reaction × W → CbcResult × W
  with_bad_pad m (none, w) = (all_false, w)
  with_bad_pad m (some p, w) = with_zero_len m p (stable exchange vec_zero_len 2 w)

  unfoldable pub with_bad_mac : Option Reaction × W → CbcResult × W
  with_bad_mac (none, w) = (all_false, w)
  with_bad_mac (some m, w) = with_bad_pad m (stable exchange vec_bad_pad 2 w)

  unfoldable pub applicable : Bool × W → CbcResult × W
  applicable (false, w) = (all_false, w)
  applicable (true, w) = with_bad_mac (stable exchange vec_bad_mac 2 w)

  -- `ProbeCBCPaddingOracles`: a session must be possible at all; then each manipulated vector
  -- twice, on fresh sessions.
  unfoldable pub probe_cbc_padding_oracles : W → CbcResult × W
  probe_cbc_padding_oracles w = applicable (establish w)

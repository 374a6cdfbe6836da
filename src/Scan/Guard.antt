-- ===== src/Scan/Guard.antt =====
-- pkg/tlsscan/guard.go: `guardTarget`. `strings.ToLower` with `strings.TrimSpace`, `net.ParseIP` and
-- `net.LookupIP` are the record `Names`.
use tlsscan.Base.{
  ◌-◌, Bool, ◌&&◌, ◌||◌, List, [], ◌∷◌, Option, none, some, length, drop, leb, if◌then◌else◌,
}
use tlsscan.Base.Text.{codes}
use tlsscan.Wire.{Bytes}
use tlsscan.Net.{NetError, Result, ok, err}
use tlsscan.Scan.Address.{same_bytes, is_blocked_ip}

pub record Names : Type 0 where
  pub normalize : Bytes → Bytes
  pub parse_ip : Bytes → Option Bytes
  pub lookup_ip : Bytes → Result (List Bytes)

-- The errors of `guardTarget`, each with what its text shows.
pub data GuardError : Type 0 where
  empty_host : GuardError
  internal_host : Bytes → GuardError
  private_ip : Bytes → GuardError
  dns_failed : NetError → GuardError
  blocked_address : Bytes → GuardError

-- `strings.HasSuffix`.
abbrev pub has_suffix : Bytes → Bytes → Bool
has_suffix s suffix =
    leb (length suffix) (length s) && same_bytes (drop (length s - length suffix) s) suffix

abbrev pub is_internal : Bytes → Bool
is_internal h =
    same_bytes h (codes "localhost")
    || has_suffix h (codes ".localhost")
    || has_suffix h (codes ".internal")

-- The loop over the addresses of a name.
unfoldable pub guard_addresses : List Bytes → Option GuardError
guard_addresses [] = none
guard_addresses (ip ∷ ips) =
    if is_blocked_ip ip then some (blocked_address ip) else guard_addresses ips

abbrev pub guard_resolved : Result (List Bytes) → Option GuardError
guard_resolved (ok ips) = guard_addresses ips
guard_resolved (err e) = some (dns_failed e)

abbrev pub guard_literal : Bytes → Bytes → Option GuardError
guard_literal host ip = if is_blocked_ip ip then some (private_ip host) else none

module _ (names : Names) where
  abbrev pub guard_name : Bytes → Bytes → Option Bytes → Option GuardError
  guard_name host h (some ip) = guard_literal host ip
  guard_name host h none = guard_resolved (names.lookup_ip h)

  unfoldable pub guard_target : Bytes → Option GuardError
  guard_target host =
      let h = names.normalize host in
      if same_bytes h []
      then some empty_host
      else if is_internal h
      then some (internal_host host)
      else guard_name host h (names.parse_ip h)

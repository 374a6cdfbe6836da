-- ===== src/Parse/Safe.antt =====
-- The parsers of probes.go, cbc.go and robot.go on any message: panics, and the rounds of the loop.
use tlsscan.Base.{
  ℕ, zero, suc, ◌+◌, ◌*◌, ◌≤◌, ◌<◌, true, false, ◌||◌, Option, none, some, length, ltb, leb, ◌==◌,
  if◌then◌else◌, ◌≡◌, refl, arith, inl, inr, Bool-cases, Option-cases, leb→le,
}
use tlsscan.Wire.{Bytes}
use tlsscan.Parse.Slice.{read16, index-some, read16-some, read24-some, slice-some}
use tlsscan.Parse.{
  extension_loop, extensions_at, server_hello_has_extension, parse_server_hello_suite,
  parse_ecdhe_server_key_exchange, leaf_at, leaf_certificate, parse_leaf_rsa_key,
}

-- The parser returns.
abbrev pub Returns : {A : Type 0} → Option A → Type 0
Returns {A} o = (a : A) × (o ≡ some a)

loop_Returns :
    (fuel : ℕ) (msg : Bytes) (want p end : ℕ)
    → end ≤ length msg
    → Returns (extension_loop fuel msg want p end)
unfolding extension_loop
loop_Returns zero msg want p end h = (false, refl)
loop_Returns (suc fuel) msg want p end h = elim (Bool-cases (leb (p + 4) end)) [
  | inr e ↦ (false, rw (e, extension_loop))
  | inl e ↦
      let le = leb→le (p + 4) end e in
      let (t, et) = read16-some msg p (omega arith) in
      let (l, el) = read16-some msg (p + 2) (omega arith) in
      (elim (Bool-cases (t == want)) [
        | inl same ↦ (true, rw (e, extension_loop) (rw et (rw el (rw same))))
        | inr other ↦
            let (b, eb) = loop_Returns fuel msg want (p + 4 + l) end h in
            (b, rw (e, extension_loop) (rw et (rw el (rw other eb))))
      ])
]

-- More rounds than are needed change nothing.
loop_fuel :
    (f g : ℕ) (msg : Bytes) (want p end : ℕ)
    → end < p + 4 + 4 * f
    → end < p + 4 + 4 * g
    → extension_loop f msg want p end ≡ extension_loop g msg want p end
unfolding extension_loop
loop_fuel zero zero msg want p end hf hg = refl
loop_fuel zero (suc g) msg want p end hf hg =
    let e : leb (p + 4) end ≡ false = ground arith in rw (e, extension_loop)
loop_fuel (suc f) zero msg want p end hf hg =
    let e : leb (p + 4) end ≡ false = ground arith in rw (e, extension_loop)
loop_fuel (suc f) (suc g) msg want p end hf hg = elim (Bool-cases (leb (p + 4) end)) [
  | inr e ↦ rw (e, extension_loop)
  | inl e ↦ elim (Option-cases (read16 msg p)) [
    | inl n ↦ rw (e, extension_loop) (rw n)
    | inr (t, et) ↦ elim (Option-cases (read16 msg (p + 2))) [
      | inl n ↦ rw (e, extension_loop) (rw et (rw n))
      | inr (l, el) ↦
          let later = loop_fuel f g msg want (p + 4 + l) end (omega arith) (omega arith) in
          rw (e, extension_loop) (rw et (rw el (ground arith)))
    ]
  ]
]

-- With an end inside the message, the loop over the extensions gives the same on any number of
-- rounds that is at least the length of the message.
pub extension_loop_fuel :
    (fuel : ℕ) (msg : Bytes) (want p end : ℕ)
    → end ≤ length msg
    → length msg ≤ fuel
    → extension_loop fuel msg want p end ≡ extension_loop (length msg) msg want p end
extension_loop_fuel fuel msg want p end h k =
    loop_fuel fuel (length msg) msg want p end (omega arith) (omega arith)

at_Returns : (msg : Bytes) (want p : ℕ) → Returns (extensions_at msg want p)
unfolding extensions_at
at_Returns msg want p = elim (Bool-cases (ltb (length msg) p)) [
  | inl e ↦ (false, rw e)
  | inr e ↦ elim (Bool-cases (ltb (length msg) (p + 2))) [
    | inl e' ↦ (false, rw e (rw e'))
    | inr e' ↦
        let (t, et) = read16-some msg p (ground arith) in
        let end = p + 2 + t in
        let (b, eb) =
          loop_Returns (length msg) msg want (p + 2)
            (if ltb (length msg) end then length msg else end) (ground arith) in
        (b, rw e (rw e' (rw et eb)))
  ]
]

has_extension_Returns : (msg : Bytes) (want : ℕ) → Returns (server_hello_has_extension msg want)
unfolding server_hello_has_extension
has_extension_Returns msg want = elim (Bool-cases (ltb (length msg) 39)) [
  | inl e ↦ (false, rw e)
  | inr e ↦
      let (sid, es) = index-some msg 38 (ground arith) in
      let (b, eb) = at_Returns msg want (39 + sid + 3) in (b, rw e (rw es eb))
]

suite_Returns : (msg : Bytes) → Returns (parse_server_hello_suite msg)
unfolding parse_server_hello_suite
suite_Returns msg = elim (Bool-cases (ltb (length msg) 39)) [
  | inl e ↦ (none, rw e)
  | inr e ↦
      let random = slice-some msg 6 38 (omega arith) (ground arith) in
      let (sid, es) = index-some msg 38 (ground arith) in
      (elim (Bool-cases (ltb (length msg) (39 + sid + 2))) [
        | inl e' ↦ (none, rw e (rw random (rw es (rw e'))))
        | inr e' ↦
            let (suite, eq) = read16-some msg (39 + sid) (ground arith) in
            rw e (rw random (rw es (rw e' (rw eq (_, refl)))))
      ])
]

ecdhe_Returns : (msg : Bytes) → Returns (parse_ecdhe_server_key_exchange msg)
unfolding parse_ecdhe_server_key_exchange
ecdhe_Returns msg = elim (Bool-cases (ltb (length msg) 8)) [
  | inl e ↦ (none, rw e)
  | inr e ↦
      let (ct, et) = index-some msg 4 (ground arith) in
      (elim (Bool-cases (ct == 0x03)) [
        | inr other ↦ (none, rw e (rw et (rw other)))
        | inl named ↦
            let (id, ei) = read16-some msg 5 (ground arith) in
            let (plen, ep) = index-some msg 7 (ground arith) in
            (elim (Bool-cases (ltb (length msg) (8 + plen))) [
              | inl e' ↦ (none, rw e (rw et (rw named (rw ei (rw ep (rw e'))))))
              | inr e' ↦
                  let point = slice-some msg 8 (8 + plen) (omega arith) (ground arith) in
                  rw e (rw et (rw named (rw ei (rw ep (rw e' (rw point (_, refl)))))))
            ])
      ])
]

leaf_at-Returns : (msg : Bytes) (n : ℕ) → Returns (leaf_at msg n)
unfolding leaf_at
leaf_at-Returns msg n = elim (Bool-cases ((n == 0) || ltb (length msg) (10 + n))) [
  | inl e ↦ (none, rw e)
  | inr e ↦
      let der = slice-some msg 10 (10 + n) (omega arith) (ground arith) in rw e (rw der (_, refl))
]

leaf_Returns : (msg : Bytes) → Returns (leaf_certificate msg)
unfolding leaf_certificate
leaf_Returns msg = elim (Bool-cases (ltb (length msg) 10)) [
  | inl e ↦ (none, rw e)
  | inr e ↦
      let (total, et) = read24-some msg 4 (ground arith) in
      (elim (Bool-cases (ltb (length msg) (7 + total))) [
        | inl e' ↦ (none, rw e (rw et (rw e')))
        | inr e' ↦
            let (n, en) = read24-some msg 7 (ground arith) in
            let (r, er) = leaf_at-Returns msg n in (r, rw e (rw et (rw e' (rw en er))))
      ])
]

leaf_key_Returns :
    {K : Type 0} (rsa_key : Bytes → Option K) (msg : Bytes)
    → Returns (parse_leaf_rsa_key rsa_key msg)
unfolding parse_leaf_rsa_key
leaf_key_Returns rsa_key msg = let (der, e) = leaf_Returns msg in rw e (_, refl)

-- Whatever bytes a server sends, none of the four parsers indexes or slices out of range.
pub parsers_Return :
    {K : Type 0} (rsa_key : Bytes → Option K) (msg : Bytes) (want : ℕ)
    → Returns (server_hello_has_extension msg want)
      × Returns (parse_server_hello_suite msg)
      × Returns (parse_ecdhe_server_key_exchange msg)
      × Returns (parse_leaf_rsa_key rsa_key msg)
parsers_Return rsa_key msg want = (
  has_extension_Returns msg want,
  suite_Returns msg,
  ecdhe_Returns msg,
  leaf_key_Returns rsa_key msg,
)

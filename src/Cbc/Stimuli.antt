-- ===== src/Cbc/Stimuli.antt =====
-- The four crafted records of cbc_oracle.go, as the server that decrypts them sees them.
use tlsscan.Base.{
  sym, ℕ, ◌-◌, suc, ◌+◌, ◌%◌, ◌<◌, Bool, true, false, ◌++◌, length, replicate, ◌==◌, if◌then◌else◌,
  ◌≡◌, ◌≢◌, ◌∙◌, ap, arith, inl, inr, Bool-cases, length-append, length-replicate,
}
use tlsscan.Base.Int.{pos, ℤ, negsuc}
use tlsscan.Wire.{Bytes, byte}
use tlsscan.Cbc.{Crypto, CbcSession, flip_last, pad_len, padding, align, compute_mac, mac_then_pad}
use tlsscan.Cbc.Oracle.{CbcVector, control, vec_bad_mac, vec_bad_pad, vec_zero_len, manipulation}
use tlsscan.Cbc.Padding.{
  receive_zeros, equal-eq, bad_padding, equal_refl, equal, Reception, bad_mac, accepted, receive,
  receive_padded,
}
use tlsscan.Cbc.Flipped.{AreBytes, pad_len_aligned, flip_last-ne, length-flip_last}

-- What is relied on of `hmac.New(sha1.New, key)`: 20 bytes.
abbrev pub IsSha1 : Crypto → Type 0
IsSha1 crypto =
    (key message : Bytes)
    → (length (crypto.hmac_sha1 key message) ≡ 20) × AreBytes (crypto.hmac_sha1 key message)

module _ (crypto : Crypto) (sha1 : IsSha1 crypto) (s : CbcSession) (content_type : ℕ) where
  -- The MAC that the server computes from the content.
  abbrev mac_of : Bytes → Bytes
  mac_of = compute_mac crypto s.client_write_mac s.client_seq content_type

  mac_length : (content : Bytes) → length (mac_of content) ≡ 20
  unfolding compute_mac
  mac_length content = (sha1 _ _).0

  mac_bytes : (content : Bytes) → AreBytes (mac_of content)
  unfolding compute_mac
  mac_bytes content = (sha1 _ _).1

  abbrev verdict : Bytes → Bytes → Reception
  verdict content m = if equal (mac_of content) m then accepted content else bad_mac

  valid_pad :
      (n : ℕ) (content m : Bytes)
      → n < 256
      → length m ≡ 20
      → receive mac_of 20 ((content ++ m) ++ replicate (n + 1) (byte n)) ≡ verdict content m
  valid_pad n content m h len =
      let e : n + 1 ≡ suc n = omega arith in
      let b : n % 256 ≡ n = omega arith in rw (e, b, ← len) (receive_padded mac_of n content m)

  align-id : (xs : Bytes) → length xs % 16 ≡ 0 → align 16 xs ≡ xs
  unfolding align
  align-id xs h = rw h

  -- The record that the server decrypts: the plaintext, aligned.
  abbrev decrypted : Bytes → Bool → ℤ → Bytes
  decrypted content force_bad_mac pad_override =
      align s.params.iv_len (mac_then_pad crypto s content_type content force_bad_mac pad_override)

  abbrev unaligned : ℕ → Bytes → Bytes → ℤ → Bytes
  unaligned k content m p = (content ++ m) ++ padding k (length (content ++ m)) p

  -- A well-formed record, whatever stands in place of the MAC.
  valid_record :
      (content m : Bytes)
      → length m ≡ 20
      → receive mac_of 20 (align 16 (unaligned 16 content m (negsuc 0))) ≡ verdict content m
  valid_record content m len =
      let n = length (content ++ m) in
      let (whole, small) = pad_len_aligned n in
      let total : length (unaligned 16 content m (negsuc 0)) ≡ n + (pad_len 16 n + 1) =
        length-append (content ++ m) (padding 16 n (negsuc 0))
        ∙ ap (λ k. n + k) (length-replicate (pad_len 16 n + 1) (byte (pad_len 16 n))) in
      rw (align-id (unaligned 16 content m (negsuc 0)) (ap (λ k. k % 16) total ∙ whole))
        (valid_pad (pad_len 16 n) content m (omega arith) len)

  -- A whole number of zeros at the end, or none where the record is aligned.
  zeros_or_aligned :
      (xs : Bytes)
      → (length xs % 16 ≡ 0 → receive mac_of 20 xs ≢ bad_padding)
      → receive mac_of 20 (align 16 xs) ≢ bad_padding
  unfolding align
  zeros_or_aligned xs h = elim (Bool-cases (length xs % 16 == 0)) [
    | inl e ↦ rw e (h (ground arith))
    | inr e ↦
        let r : 16 - length xs % 16 ≡ suc (15 - length xs % 16) = omega arith in
        rw (e, r) (receive_zeros mac_of 20 (15 - length xs % 16) xs)
  ]

  verdict-ne : (content m : Bytes) → verdict content m ≢ bad_padding
  verdict-ne content m = ground arith

  mac_part : Bytes → Bool → Bytes
  mac_part content force = if force then flip_last (mac_of content) else mac_of content

  length-mac_part : (content : Bytes) (force : Bool) → length (mac_part content force) ≡ 20
  unfolding mac_part
  length-mac_part content true = length-flip_last (mac_of content) ∙ mac_length content
  length-mac_part content false = mac_length content

  differs : (content : Bytes) → equal (mac_of content) (mac_part content true) ≡ false
  unfolding mac_part
  differs content =
      let ne =
        flip_last-ne (mac_of content) (mac_bytes content) (omega (arith, mac_length content)) in
      elim (Bool-cases (equal (mac_of content) (flip_last (mac_of content)))) [
        | inl e ↦ absurd (ne (sym (equal-eq _ _ e)))
        | inr e ↦ e
      ]

  length-unaligned :
      (content m : Bytes) (p : ℕ)
      → length m ≡ 20
      → length (unaligned 16 content m (pos p)) ≡ length content + 20 + (p + 1)
  length-unaligned content m p h = omega (
    arith,
    length-append (content ++ m) (padding 16 0 (pos p)),
    length-append content m,
    length-replicate (p + 1) (byte p),
  )

  long_pad :
      (content : Bytes)
      → (length content + 20) % 16 ≡ 0
      → length (unaligned 16 content (mac_of content) (pos 255)) % 16 ≡ 0
  long_pad content h =
      omega (arith, length-unaligned content (mac_of content) 255 (mac_length content))

  explicit_pad :
      (p : ℕ) (content : Bytes) (force : Bool)
      → p < 256
      → receive mac_of 20 (unaligned 16 content (mac_part content force) (pos p)) ≢ bad_padding
  explicit_pad p content force h =
      rw (valid_pad p content (mac_part content force) h (length-mac_part content force))
        (verdict-ne content (mac_part content force))

  module _ (aes : s.params.iv_len ≡ 16) where
    decrypted_lem :
        (content : Bytes) (force : Bool) (p : ℤ)
        → decrypted content force p ≡ align 16 (unaligned 16 content (mac_part content force) p)
    unfolding mac_then_pad mac_part
    decrypted_lem content force p =
        ap (λ k. align k (unaligned k content (mac_part content force) p)) aes

    -- With AES blocks and digests of 20 bytes, the server accepts the control record, and reads
    -- the content that was sent.
    pub receive-control :
        (content : Bytes)
        → receive mac_of 20 (decrypted content (manipulation control).0 (manipulation control).1)
          ≡ accepted content
    unfolding manipulation mac_part
    receive-control content = rw (decrypted_lem content false (negsuc 0)) (
        valid_record content (mac_of content) (mac_length content)
        ∙ rw (equal_refl (mac_of content)))

    -- With AES blocks and digests of 20 bytes, the server finds the padding of the bad-MAC
    -- record valid and refuses its MAC.
    pub receive-vec_bad_mac :
        (content : Bytes)
        → receive mac_of 20
            (decrypted content (manipulation vec_bad_mac).0 (manipulation vec_bad_mac).1)
          ≡ bad_mac
    unfolding manipulation mac_part
    receive-vec_bad_mac content = rw (decrypted_lem content true (negsuc 0)) (
        valid_record content (flip_last (mac_of content)) (length-mac_part content true)
        ∙ rw (differs content))

    -- With AES blocks and digests of 20 bytes, the server accepts the bad-padding record where
    -- the content and its MAC fill whole blocks.
    pub receive-vec_bad_pad :
        (content : Bytes)
        → (length content + 20) % 16 ≡ 0
        → receive mac_of 20
            (decrypted content (manipulation vec_bad_pad).0 (manipulation vec_bad_pad).1)
          ≡ accepted content
    unfolding manipulation mac_part
    receive-vec_bad_pad content whole =
        let xs = unaligned 16 content (mac_of content) (pos 255) in
        rw (decrypted_lem content false (pos 255), align-id xs (long_pad content whole))
          (valid_pad 255 content (mac_of content) (omega arith) (mac_length content)
            ∙ rw (equal_refl (mac_of content)))

    -- With AES blocks and digests of 20 bytes, the server finds the padding of none of the four
    -- crafted records invalid, whatever their content.
    pub receive-ne-bad_padding :
        (vec : CbcVector) (content : Bytes)
        → receive mac_of 20 (decrypted content (manipulation vec).0 (manipulation vec).1)
          ≢ bad_padding
    unfolding manipulation
    receive-ne-bad_padding control content = rw (receive-control content) (λ e. cc)
    receive-ne-bad_padding vec_bad_mac content = rw (receive-vec_bad_mac content) (λ e. cc)
    receive-ne-bad_padding vec_bad_pad content =
        rw (decrypted_lem content false (pos 255))
          (zeros_or_aligned _ λ h. explicit_pad 255 content false (omega arith))
    receive-ne-bad_padding vec_zero_len content =
        rw (decrypted_lem content true (pos 0))
          (zeros_or_aligned _ λ h. explicit_pad 0 content true (omega arith))

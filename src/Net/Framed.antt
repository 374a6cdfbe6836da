-- ===== src/Net/Framed.antt =====
-- The readers of Net/Stream on one framed record.
use tlsscan.Base.{
  ℕ, ◌/◌, ◌<◌, true, ◌++◌, length, leb, ◌≡◌, refl, arith, length-append, take-append, drop-append,
}
use tlsscan.Wire.{Bytes, byte, get16, get16-put16}
use tlsscan.Wire.Headers.{framed}
use tlsscan.Net.Stream.{got, bytes, header}

pub header-framed :
    (version t : ℕ) (f more : Bytes)
    → length f < 65536
    → header (framed version t f ++ more)
      ≡ got (t, get16 (byte (version / 256)) (byte version), length f) (f ++ more)
header-framed version t f more h =
    let e : leb 5 (length (framed version t f ++ more)) ≡ true =
      ground (arith, length-append f more) in
    rw e (rw (get16-put16 (length f) h))

pub bytes-append : (f more : Bytes) → bytes (length f) (f ++ more) ≡ got f more
bytes-append f more =
    let e : leb (length f) (length (f ++ more)) ≡ true = ground (arith, length-append f more) in
    rw (e, take-append (length f) f more refl, drop-append (length f) f more refl)

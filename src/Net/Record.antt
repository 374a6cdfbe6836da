-- ===== src/Net/Record.antt =====
-- probes.go: `readRecordHeader`.
use tlsscan.Base.{ℕ, ◌∷◌}
use tlsscan.Wire.{Bytes, get16}
use tlsscan.Net.{Io, ◌>>=◌, pure, read_full}

-- Content type, version and payload length. `readFull` fills all five bytes, so the last clause
-- is never taken.
abbrev pub header_fields : Bytes → ℕ × ℕ × ℕ
header_fields (t ∷ v ∷ w ∷ l ∷ m ∷ rest) = (t, get16 v w, get16 l m)
header_fields _ = (0, 0, 0)

unfoldable pub read_record_header : Io (ℕ × ℕ × ℕ)
read_record_header = do header ← read_full 5; pure (header_fields header)

-- ===== src/Base64/Decode.antt =====
-- The decoder on any input: what it writes, and what it releases.
use iot_eclipse.Base.{ℕ}
use iot_eclipse.Base.Bytes.{Bytes}
use iot_eclipse.Memory.{Memory}
use iot_eclipse.Base64.{padding_index, padding_count}

-- The abbreviation of what is found: where the padding begins, and how much there is.
abbrev padding_of : Bytes → ℕ
padding_of p = padding_count p (padding_index p)

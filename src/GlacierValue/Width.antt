-- ===== src/GlacierValue/Width.antt =====
-- The width of a value of crates/glacier-protocol/src/lib.rs is that of its kind.
use openforge_aio.Prelude.{◌^◌, ◌<◌, ◌≡◌, refl, length, arith}
use openforge_aio.GlacierValue.{GlacierValue, kind, size, to_le_bytes}

-- The values that the protocol can carry: raw bytes are fewer than 2^32.
unfoldable pub IsCarried : GlacierValue → Type 0
IsCarried (GlacierValue.bytes v) = length v < 2 ^ 32
IsCarried _ = Unit {0}

-- A value has as many bytes as its kind says, raw bytes if they are fewer than 2^32.
pub to_le_bytes_lem : (v : GlacierValue) → IsCarried v → length (to_le_bytes v) ≡ size (kind v)
unfolding to_le_bytes kind size IsCarried
to_le_bytes_lem (GlacierValue.bytes v) h = omega (arith, h)
to_le_bytes_lem _ h = refl

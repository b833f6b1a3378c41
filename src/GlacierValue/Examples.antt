-- ===== src/GlacierValue/Examples.antt =====
-- Runs of crates/glacier-protocol/src/lib.rs.
use openforge_aio.Prelude.{◌≡◌, refl, [], ◌∷◌, length, arith}
use openforge_aio.GlacierValue.{GlacierValue, kind, size, to_le_bytes}
use openforge_aio.GlacierValue.Width.{IsCarried, to_le_bytes_lem}

to_le_bytes_lem_example :
    length (to_le_bytes (GlacierValue.bytes (1 ∷ 2 ∷ 3 ∷ [])))
    ≡ size (kind (GlacierValue.bytes (1 ∷ 2 ∷ 3 ∷ [])))
unfolding IsCarried
to_le_bytes_lem_example = to_le_bytes_lem (GlacierValue.bytes (1 ∷ 2 ∷ 3 ∷ [])) (omega arith)

one_and_a_half : to_le_bytes (GlacierValue.f32 0x3fc00000) ≡ 0 ∷ 0 ∷ 0xc0 ∷ 0x3f ∷ []
unfolding to_le_bytes
one_and_a_half = refl

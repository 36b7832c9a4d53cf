-- ===== src/LittleEndian.antt =====
-- `binary.LittleEndian` of the standard library, with which cauth/cauth.go and comm/crypto_unit.go
-- write and read the number of rings.
use ifrit.Prelude.{
  ℕ, ◌+◌, ◌*◌, ◌/◌, ◌%◌, ◌^◌, ◌<◌, ◌≡◌, ap, Option, none, some, [], ◌∷◌, Bytes, arith,
}

unfoldable pub put_uint32 : ℕ → Bytes
put_uint32 v = (v % 256) ∷ (v / 2 ^ 8 % 256) ∷ (v / 2 ^ 16 % 256) ∷ (v / 2 ^ 24 % 256) ∷ []

-- `none` is the panic for a slice of fewer than four bytes; further bytes are not read.
unfoldable pub uint32 : Bytes → Option ℕ
uint32 (a ∷ b ∷ c ∷ d ∷ rest) = some (a + b * 2 ^ 8 + c * 2 ^ 16 + d * 2 ^ 24)
uint32 _ = none

pub uint32-put_uint32 : (v : ℕ) → v < 2 ^ 32 → uint32 (put_uint32 v) ≡ some v
unfolding uint32 put_uint32
uint32-put_uint32 v h = ap some (omega arith)

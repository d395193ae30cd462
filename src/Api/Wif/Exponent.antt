-- ===== src/Api/Wif/Exponent.antt =====
-- `parseRSAPublicKey` of internal/api/wif.go: the exponent, `e = e<<8 + int(b)` on 64 bits.
use headtotails.Prelude.{ℕ, ◌+◌, ◌*◌, ◌%◌, ◌^◌, ◌≡◌, refl, List, [], ◌∷◌, arith}
use headtotails.Api.Wif.Jwt.{set_bytes, exponent}

step : (e b : ℕ) → ((e % 2 ^ 64 * 256) % 2 ^ 64 + b) % 2 ^ 64 ≡ (e * 256 + b) % 2 ^ 64
step e b = omega arith

-- The exponent read on 64 bits is the number that the bytes spell, reduced to 64 bits.
pub exponent-mod : (bs : List ℕ) (e : ℕ) → exponent (e % 2 ^ 64) bs ≡ set_bytes e bs % 2 ^ 64
unfolding exponent set_bytes
exponent-mod [] e = refl
exponent-mod (b ∷ bs) e = rw (step e b) (exponent-mod bs (e * 256 + b))

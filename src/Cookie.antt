-- ===== src/Cookie.antt =====
-- src/cookie.rs: a token and a nonce in one `u64`, the token in the upper 16 bits.
use floki.Prelude.{ℕ, ◌+◌, ◌*◌, ◌/◌, ◌%◌, ◌^◌, ◌<◌, ◌≡◌, arith}

-- `|` joins two values that share no bits, and so is a sum.
unfoldable pub new : ℕ → ℕ → ℕ
new token nonce = (token * 2 ^ 48) % 2 ^ 64 + nonce % 2 ^ 48

unfoldable pub token : ℕ → ℕ
token cookie = cookie / 2 ^ 48

unfoldable pub nonce : ℕ → ℕ
nonce cookie = cookie % 2 ^ 48

-- A cookie made of any token and nonce fits 64 bits, and gives back the lower 16 bits of the token
-- and the lower 48 of the nonce.
pub token-new :
    (t n : ℕ) → (new t n < 2 ^ 64) × (token (new t n) ≡ t % 2 ^ 16) × (nonce (new t n) ≡ n % 2 ^ 48)
unfolding new token nonce
token-new t n = (omega arith, omega arith, omega arith)

-- A cookie of 64 bits is the one made of its token and its nonce.
new-token : (c : ℕ) → c < 2 ^ 64 → new (token c) (nonce c) ≡ c
unfolding new token nonce
new-token c h = omega arith

-- ===== src/Api/Wif.antt =====
-- internal/api/wif.go: workload identity federation. `Jwt` has the claims and the keys, `Validator`
-- the checks of a JWT against the keys of its issuer, `Exchange` the handler.
pub mod Jwt
pub mod Validator
pub mod Exchange
pub mod Acceptance
pub mod Exponent
pub mod Validate
pub mod Caching
pub mod Threads
pub mod Grants

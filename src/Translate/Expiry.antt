-- ===== src/Translate/Expiry.antt =====
-- The expiration that a new key is given.
use headtotails.Prelude.{
  ℕ, zero, suc, ◌+◌, ◌-◌, ◌*◌, ◌^◌, ◌<◌, ◌≡◌, refl, some, arith, ℤ, pos, negsuc, ap,
}
use headtotails.Time.{Time, second, add-seconds, add-seconds_wraps}
use headtotails.Model.{CreateKeyRequest}
use headtotails.Translate.{expiry_or_default, key_request_to_create_pre_auth_key_request}

-- `IsLifetime n secs`: a request of `n` seconds means a lifetime of `secs`; a request of none, or
-- of a negative number, means an hour.
pub data IsLifetime : ℤ → ℕ → Type 0 where
  given : (n : ℕ) → IsLifetime (pos (suc n)) (suc n)
  unset : IsLifetime (pos zero) 3600
  negative : (n : ℕ) → IsLifetime (negsuc n) 3600

expiry_or_default_lem : {e : ℤ} {secs : ℕ} → IsLifetime e secs → expiry_or_default e ≡ secs
unfolding expiry_or_default
expiry_or_default_lem (given n) = refl
expiry_or_default_lem unset = refl
expiry_or_default_lem (negative n) = refl

module _ (now : Time) (r : CreateKeyRequest) (user_id secs : ℕ) where
  -- A key that is asked for `secs` seconds, at most 9223372036 of them, expires exactly that long
  -- from now; one that is asked for no time, or a negative one, expires in an hour.
  pub key_expires_in :
      IsLifetime r.expiry_seconds secs
      → secs < 9223372037
      → (key_request_to_create_pre_auth_key_request now r user_id).expiration
        ≡ some (now + secs * second)
  unfolding key_request_to_create_pre_auth_key_request
  key_expires_in h small = ap some (rw (expiry_or_default_lem h) (add-seconds now secs small))

  -- A key that is asked for 9223372037 to 18446744073 seconds is created with an expiration that
  -- has passed: the product in nanoseconds wraps round to a negative duration.
  pub key_expired_at_creation :
      IsLifetime r.expiry_seconds secs
      → 9223372036 < secs
      → secs < 18446744074
      → 0 < now
      → (t : Time) × ((key_request_to_create_pre_auth_key_request now r user_id).expiration
          ≡ some t)
        × (t < now)
  unfolding key_request_to_create_pre_auth_key_request
  key_expired_at_creation h large bound started = (
    now - (2 ^ 64 - secs * second),
    ap some (rw (expiry_or_default_lem h) (add-seconds_wraps now secs large bound)),
    ground arith,
  )

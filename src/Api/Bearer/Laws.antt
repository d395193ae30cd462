-- ===== src/Api/Bearer/Laws.antt =====
-- The middleware of internal/api/auth.go on a store of tokens.
use headtotails.Prelude.{
  ℕ, ◌≤◌, ◌≡◌, refl, ◌≢◌, ◌↔◌, ◌⊎◌, inl, inr, true, false, Option, none, some, Option-cases, [],
  ◌∷◌, ◌++◌, arith, map, All,
}
use headtotails.Text.{Text, codes, ◌==◌, eq_iff}
use headtotails.Text.Space.{NoSpace, trim_space_of_NoSpace}
use headtotails.Text.Split.{split_n-append, Lacks}
use headtotails.Text.Fold.{lower, equal_fold-iff_lower}
use headtotails.Time.{Time}
use headtotails.Dict.{drop_if}
use headtotails.Api.Http.{Request}
use headtotails.Api.TokenStore.{TokenStore, TokenEntry, lookup, purge, has_expired, lookup-purge}
use headtotails.Api.Handler.{World, HandlerFunc}
use headtotails.Api.Bearer.{
  bearer_auth_middleware, extract_bearer_token, request_token, is_live, refusal,
}

-- A token of the store that has not expired.
abbrev pub IsLive : TokenStore → Time → Text → Type 0
IsLive ts now tok = (e : TokenEntry) × (lookup ts tok ≡ some e) × (now ≤ e.expiry)

is_live_iff :
    (now : Time) (o : Option TokenEntry)
    → (is_live now o ≡ true) ↔ ((e : TokenEntry) × (o ≡ some e) × (now ≤ e.expiry))
is_live_iff now none = (λ e. cc, λ h. cc (h.1))
is_live_iff now (some e) = (λ p. (e, refl, ground arith), λ h. ground (arith, h.1, h.2))

-- A request is handed on exactly if it carries a token that is the API key of headscale or one of
-- the store that has not expired.
pub refusal-none_iff :
    (ts : TokenStore) (key : Text) (now : Time) (r : Request)
    → (refusal ts key now r ≡ none)
      ↔ ((request_token r ≢ []) × ((request_token r ≡ key) ⊎ IsLive ts now (request_token r)))
unfolding refusal
refusal-none_iff ts key now r = ground (
  arith,
  eq_iff (request_token r) [],
  eq_iff (request_token r) key,
  is_live_iff now (lookup ts (request_token r)),
)

pub is_live-drop_if :
    (before now : Time) (o : Option TokenEntry)
    → before ≤ now
    → is_live now (drop_if (has_expired before) o) ≡ is_live now o
is_live-drop_if before now none h = refl
is_live-drop_if before now (some e) h = ground arith

-- The purge is not observable: whenever the store was purged, by now, the answer is the same.
refusal-purge :
    (ts : TokenStore) (key : Text) (before now : Time) (r : Request)
    → before ≤ now
    → refusal (purge before ts) key now r ≡ refusal ts key now r
unfolding refusal
refusal-purge ts key before now r h =
    rw (lookup-purge, is_live-drop_if before now (lookup ts (request_token r)) h)

lower_space : (s : Text) → Lacks b' ' (map lower s) → Lacks b' ' s
lower_space [] h = tt
lower_space (c ∷ s) (p, h) = (ground arith, lower_space s h)

scheme-Lacks : (s : Text) → map lower s ≡ codes "bearer" → Lacks b' ' s
scheme-Lacks s h = lower_space s (rw h (ground arith))

append-not-empty : (s t : Text) (c : ℕ) → ((s ++ c ∷ t) == []) ≡ false
unfolding ◌==◌
append-not-empty [] t c = refl
append-not-empty (d ∷ s) t c = refl

-- The header "<scheme> <token>" carries the token, whatever the case of the scheme's letters.
pub extract_bearer_token_lem :
    (r : Request) (scheme tok : Text)
    → map lower scheme ≡ codes "bearer"
    → All NoSpace tok
    → r.authorization ≡ scheme ++ b' ' ∷ tok
    → extract_bearer_token r ≡ tok
unfolding extract_bearer_token
extract_bearer_token_lem r scheme tok h plain p = ground (
  arith,
  append-not-empty scheme tok b' ',
  split_n-append b' ' scheme tok (scheme-Lacks scheme h),
  equal_fold-iff_lower scheme (codes "bearer") h,
  trim_space_of_NoSpace tok plain,
)

-- The middleware looks at a handler at its own request alone.
pub bearer_auth_middleware_ext :
    {S : Type 0} (ts : TokenStore) (key : Text) (now : Time) (f g : HandlerFunc S) (r : Request)
    (w : World S)
    → f r w ≡ g r w
    → bearer_auth_middleware ts key now f r w ≡ bearer_auth_middleware ts key now g r w
unfolding bearer_auth_middleware
bearer_auth_middleware_ext ts key now f g r w e = elim (Option-cases (refusal ts key now r)) [
  | inl admitted ↦ rw admitted e
  | inr (x, refused) ↦ rw refused refl
]

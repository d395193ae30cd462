-- ===== src/Api/Bearer.antt =====
-- internal/api/auth.go: `BearerAuthMiddleware`, in front of every route below /api/v2.
pub mod Laws
use headtotails.Prelude.{
  ℕ, ◌≡◌, refl, Bool, true, false, not, ◌&&◌, ◌||◌, Option, none, some, List, [], ◌∷◌, ◌++◌,
  if◌then◌else◌,
}
use headtotails.Text.{Text, codes, ◌==◌}
use headtotails.Text.Space.{trim_space}
use headtotails.Text.Split.{split_n}
use headtotails.Text.Fold.{equal_fold}
use headtotails.Time.{Time, after}
use headtotails.Api.Http.{Request, Response, write_error}
use headtotails.Api.Handler.{HandlerFunc}
use headtotails.Api.TokenStore.{TokenStore, TokenEntry, lookup, has_expired}

-- `len(parts) != 2 || !strings.EqualFold(parts[0], "bearer")`.
abbrev bearer_part : List Text → Text
bearer_part (scheme ∷ token ∷ []) =
    if not (equal_fold scheme (codes "bearer")) then [] else trim_space token
bearer_part _ = []

unfoldable pub extract_bearer_token : Request → Text
extract_bearer_token r =
    if r.authorization == [] then [] else bearer_part (split_n b' ' 2 r.authorization)

-- The user name of Basic Auth stands in for a token that is missing.
abbrev basic_user : Option (Text × Text) → Text
basic_user none = []
basic_user (some (u, password)) = u

unfoldable pub request_token : Request → Text
unfolding extract_bearer_token
request_token r =
    let tok = extract_bearer_token r in if tok == [] then basic_user r.basic_auth else tok

-- `!ok || time.Now().After(entry.expiry)`.
abbrev pub is_live : Time → Option TokenEntry → Bool
is_live now none = false
is_live now (some e) = not (has_expired now e)

-- What the middleware refuses a request with; `none` hands it on.
unfoldable pub refusal : TokenStore → Text → Time → Request → Option Response
unfolding request_token
refusal ts headscale_api_key now r =
    let tok = request_token r in
    if tok == []
    then some (write_error 401 (codes "missing authorization token"))
    else if tok == headscale_api_key
    then none
    else if not (is_live now (lookup ts tok))
    then some (write_error 401 (codes "invalid or expired token"))
    else none

-- `next.ServeHTTP(w, r)` unless the request was refused.
abbrev unless_refused : {S : Type 0} → Option Response → HandlerFunc S → HandlerFunc S
unless_refused none serve r w = serve r w
unless_refused (some response) serve r w = (response, w)

unfoldable pub bearer_auth_middleware :
    {S : Type 0} → TokenStore → Text → Time → HandlerFunc S → HandlerFunc S
unfolding refusal
bearer_auth_middleware ts headscale_api_key now serve r w =
    unless_refused (refusal ts headscale_api_key now r) serve r w

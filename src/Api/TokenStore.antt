-- ===== src/Api/TokenStore.antt =====
-- `tokenStore` of internal/api/auth.go: the OAuth tokens in memory. Each method holds the lock, so
-- a run is a sequence of them; `now` is what time.Now() returns.
use headtotails.Prelude.{◌≡◌, Bool, Option, none, some, if◌then◌else◌}
use headtotails.Text.{Text, ◌==◌}
use headtotails.Time.{Time, after}
use headtotails.Dict
use headtotails.Dict.{Dict, drop_if, get-put, get-delete_if, get-empty}

pub record TokenEntry : Type 0 where
  pub expiry : Time

pub record TokenStore : Type 0 where
  pub tokens : Dict TokenEntry

unfoldable pub new_token_store : TokenStore
new_token_store = record { tokens = Dict.empty }

unfoldable pub store : TokenStore → Text → TokenEntry → TokenStore
store ts token entry = record { tokens = Dict.put ts.tokens token entry }

unfoldable pub lookup : TokenStore → Text → Option TokenEntry
lookup ts token = Dict.get ts.tokens token

abbrev pub has_expired : Time → TokenEntry → Bool
has_expired now e = after now e.expiry

unfoldable pub purge : Time → TokenStore → TokenStore
purge now ts = record { tokens = Dict.delete_if (has_expired now) ts.tokens }

pub lookup-store :
    (ts : TokenStore) (token k : Text) (e : TokenEntry)
    → lookup (store ts token e) k ≡ (if token == k then some e else lookup ts k)
unfolding lookup store
lookup-store ts token k e = get-put ts.tokens token k e

pub lookup-purge :
    (now : Time) (ts : TokenStore) (k : Text)
    → lookup (purge now ts) k ≡ drop_if (has_expired now) (lookup ts k)
unfolding lookup purge
lookup-purge now ts k = get-delete_if (has_expired now) ts.tokens k

pub lookup-new_token_store : (k : Text) → lookup new_token_store k ≡ none
unfolding lookup new_token_store
lookup-new_token_store k = get-empty k

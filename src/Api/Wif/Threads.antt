-- ===== src/Api/Wif/Threads.antt =====
-- `getKey` and `refreshJWKS` as requests run them side by side: each part under the lock is one
-- step, and the requests to the issuer are made without it.
pub mod Safety
use headtotails.Prelude.{ℕ, ◌≡◌, Option, none, some, List, [], ◌∷◌, nat_eq, if◌then◌else◌}
use headtotails.Text.{Text}
use headtotails.Time.{Time}
use headtotails.Dict
use headtotails.Dict.{Dict}
use headtotails.Api.Wif.Jwt.{PublicKey, Library}
use headtotails.Api.Wif.Validator.{
  JwksCache, WifError, kid_not_found, Result, ok, err, Issuer, fetch_keys, cached_key, key_in,
}

-- Where a request stands in `getKey` for a key id: before the look in the cache, before the fetch,
-- between the fetch and the write, before the second look, and after the return. The second look
-- dereferences the pointer to the cache, which crashes if it is nil.
pub data Pc : Type 0 where
  looking fetching : Text → Pc
  storing : Text → Dict PublicKey → Pc
  reading : Text → Pc
  returned : Text → Result PublicKey → Pc
  crashed : Pc

-- `heard` are the key sets that the issuer has answered with so far, the last first.
pub record Shared : Type 0 where
  pub cache : Option JwksCache
  pub heard : List (Dict PublicKey)

abbrev pub update : (ℕ → Pc) → ℕ → Pc → ℕ → Pc
update f i p j = if nat_eq i j then p else f j

pub record System : Type 0 where
  pub shared : Shared
  pub pc : ℕ → Pc

module _ (lib : Library) (issuer_url : Text) where
  -- One step of a request on the shared cache. The clock and the issuer's answers are those of the
  -- moment.
  pub data Move : Shared → Pc → Shared → Pc → Type 0 where
    hit :
        {m : Shared} {kid : Text} (now : Time) (key : PublicKey)
        → cached_key now kid m.cache ≡ some key
        → Move m (looking kid) m (returned kid (ok key))
    miss :
        {m : Shared} {kid : Text} (now : Time)
        → cached_key now kid m.cache ≡ none
        → Move m (looking kid) m (fetching kid)
    fetch_failed :
        {m : Shared} {kid : Text} (issuer : Issuer) (e : WifError)
        → fetch_keys lib issuer issuer_url ≡ err e
        → Move m (fetching kid) m (returned kid (err e))
    fetched :
        {m : Shared} {kid : Text} (issuer : Issuer) (keys : Dict PublicKey)
        → fetch_keys lib issuer issuer_url ≡ ok keys
        → Move m (fetching kid) (record m { heard = keys ∷ m.heard }) (storing kid keys)
    stored :
        {m : Shared} {kid : Text} {keys : Dict PublicKey} (now : Time)
        → Move m
            (storing kid keys)
            (record m { cache = some (record { keys = keys; fetched_at = now }) })
            (reading kid)
    read :
        {m : Shared} {kid : Text} (c : JwksCache)
        → m.cache ≡ some c
        → Move m (reading kid) m (returned kid (key_in kid (some c)))
    dereferenced : {m : Shared} {kid : Text} → m.cache ≡ none → Move m (reading kid) m crashed
    -- The request is over, and its place is taken by another one.
    asked :
        {m : Shared} {kid : Text} {x : Result PublicKey} (next : Text)
        → Move m (returned kid x) m (looking next)

  -- The requests in any order, each for any key id, on a new validator.
  pub data Reach : System → Type 0 where
    start :
        (kids : ℕ → Text)
        → Reach
            (record { shared = record { cache = none; heard = [] }; pc = λ i. looking (kids i) })
    later :
        {s : System} (i : ℕ) {m : Shared} {p : Pc}
        → Reach s
        → Move s.shared (s.pc i) m p
        → Reach (record { shared = m; pc = update s.pc i p })

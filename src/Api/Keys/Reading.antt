-- ===== src/Api/Keys/Reading.antt =====
-- `GetKey` and `ListKeys` of internal/api/keys.go: their calls and their responses.
use headtotails.Prelude.{◌≡◌, refl, ◌≢◌, some, List, [], ◌∷◌, ◌++◌, map, All}
use headtotails.Text.{Text, codes}
use headtotails.Text.Decimal.{format}
use headtotails.Proto.{PreAuthKey}
use headtotails.Headscale.{Rpc, list_users, list_pre_auth_keys, HeadscaleClient}
use headtotails.Headscale.Client.Laws.{OwnedBy, IsScoped}
use headtotails.Translate.{pre_auth_key_to_key}
use headtotails.Api.Http.{Request, Response, url_param, key_json, keys_json, write_json}
use headtotails.Api.Handler.{World, Handler, answer, pure, ◌>>=◌}
use headtotails.Api.Errors.{call_or_error}
use headtotails.Api.Effects.{Does, Does-pure, Does-call_or_error, Reported, Granted, reported}
use headtotails.Api.Keys.{dash, get_key, list_keys}
use headtotails.Api.Keys.Tenancy.{select_user-own}
use headtotails.Api.Keys.Steps.{Owned, Unresolved, Unlisted, Does-find_key, Does-tailnet_user}

-- How a request for one key may end.
pub data Reading {S : Type 0} (hs : HeadscaleClient S) (name tailnet key_id : Text) (t : List Rpc)
    (x : Response) : Type 0 where
  unresolved :
      t ≡ list_users ∷ [] → Unresolved hs name tailnet x → Reading hs name tailnet key_id t x
  missing :
      t ≡ list_users ∷ list_pre_auth_keys name ∷ []
      → Unlisted hs name key_id x
      → Reading hs name tailnet key_id t x
  found :
      (k : PreAuthKey)
      → Owned hs name k
      → format k.id ≡ key_id
      → t ≡ list_users ∷ list_pre_auth_keys name ∷ []
      → x ≡ write_json 200 (key_json (pre_auth_key_to_key (some k)))
      → Reading hs name tailnet key_id t x

-- How a request for all keys may end.
pub data Listing {S : Type 0} (hs : HeadscaleClient S) (name tailnet : Text) (t : List Rpc)
    (x : Response) : Type 0 where
  unresolved : t ≡ list_users ∷ [] → Unresolved hs name tailnet x → Listing hs name tailnet t x
  failed :
      t ≡ list_users ∷ list_pre_auth_keys name ∷ []
      → Reported hs (list_pre_auth_keys name) x
      → Listing hs name tailnet t x
  listed :
      (keys : List PreAuthKey)
      → Granted hs (list_pre_auth_keys name) keys
      → All (OwnedBy name) keys
      → t ≡ list_users ∷ list_pre_auth_keys name ∷ []
      → x
        ≡ write_json 200
            (keys_json (record { keys = map (λ k. pre_auth_key_to_key (some k)) keys }))
      → Listing hs name tailnet t x

module _ {S : Type 0} (hs : HeadscaleClient S) (sc : IsScoped hs) (name : Text)
    (configured : name ≢ dash) (named : name ≢ []) (r : Request) (w : World S) where
  -- With a nonempty tailnet name configured and a scoped client, a request for a key makes no call
  -- but the two that list, and shows a key of the configured user that has the id in the path; it
  -- fails only if a list fails, the tailnet is refused or no key that was listed has the id.
  pub get_key-Reading :
      (t : List Rpc) × ((get_key hs name r w).1.calls ≡ w.calls ++ t)
      × Reading hs name
          (url_param r (codes "tailnet"))
          (url_param r (codes "keyId"))
          t
          (get_key hs name r w).0
  unfolding get_key
  get_key-Reading =
      let key_id = url_param r (codes "keyId") in
      let all =
        Does-find_key hs sc name configured named r key_id
          (λ t es x. Reading hs name (url_param r (codes "tailnet")) key_id t (answer x))
          (λ key. pure (write_json 200 (key_json (pre_auth_key_to_key (some key)))))
          (λ es x h. Reading.unresolved refl h) (λ es x h. missing refl h)
          (λ k own same. Does-pure _ (found k own same refl refl)) in
      let (t, es, calls, errors, made) = all.at w in (t, calls, made)

  show : List PreAuthKey → Handler S Response
  show keys =
      pure (
        write_json 200 (keys_json (record { keys = map (λ k. pre_auth_key_to_key (some k)) keys })))

  list_for :
      (user : Text)
      → user ≡ name
      → Does
          (call_or_error hs r (list_pre_auth_keys user) >>= show)
          (λ t es x. Listing hs name (url_param r (codes "tailnet")) (list_users ∷ t) (answer x))
  unfolding show
  list_for user e = rw e (
      Does-call_or_error hs r (list_pre_auth_keys name) _ show
        (λ s e p. failed refl (reported hs (list_pre_auth_keys name) s e p))
        (λ s keys p. Does-pure _ (listed keys (s, p) (sc.scoped [] name s keys named p) refl refl)))

  -- With a nonempty tailnet name configured and a scoped client, a request for all keys makes no
  -- call but the two that list, and shows the keys that the client lists for the configured user, all
  -- of them his; it fails only if a list fails or the tailnet is refused.
  pub list_keys-Listing :
      (t : List Rpc) × ((list_keys hs name r w).1.calls ≡ w.calls ++ t)
      × Listing hs name (url_param r (codes "tailnet")) t (list_keys hs name r w).0
  unfolding list_keys show
  list_keys-Listing =
      let all =
        Does-tailnet_user hs name r
          (λ t es x. Listing hs name (url_param r (codes "tailnet")) t (answer x))
          (λ user. call_or_error hs r (list_pre_auth_keys user.name) >>= show)
          (λ es x h. Listing.unresolved refl h)
          (λ us u granted p.
            list_for u.name
              (select_user-own name (url_param r (codes "tailnet")) us u configured p).1) in
      let (t, es, calls, errors, made) = all.at w in (t, calls, made)

-- ===== src/Api/Keys/Deletion.antt =====
-- `DeleteKey` of internal/api/keys.go: its calls and its responses.
use headtotails.Prelude.{◌≡◌, refl, ◌≢◌, List, [], ◌∷◌, ◌++◌}
use headtotails.Text.{Text, codes}
use headtotails.Text.Decimal.{format}
use headtotails.Proto.{PreAuthKey}
use headtotails.Headscale.{
  Rpc, list_users, list_pre_auth_keys, expire_pre_auth_key, delete_pre_auth_key, HeadscaleClient,
}
use headtotails.Headscale.Client.Laws.{IsScoped}
use headtotails.Api.Http.{Request, Response, url_param, write_header}
use headtotails.Api.Handler.{World, answer, pure, ◌>>◌}
use headtotails.Api.Errors.{call_or_error}
use headtotails.Api.Effects.{
  Effect, Does, Does-pure, Does-call_or_error, Reported, Granted, reported,
}
use headtotails.Api.Keys.{dash, delete_key}
use headtotails.Api.Keys.Steps.{Owned, Unresolved, Unlisted, Does-find_key}

-- The calls that a request to delete a key may make, with its response. All but the last end
-- before the key is gone.
pub data Deletion {S : Type 0} (hs : HeadscaleClient S) (name tailnet key_id : Text) (t : List Rpc)
    (x : Response) : Type 0 where
  unresolved :
      t ≡ list_users ∷ [] → Unresolved hs name tailnet x → Deletion hs name tailnet key_id t x
  unlisted :
      t ≡ list_users ∷ list_pre_auth_keys name ∷ []
      → Unlisted hs name key_id x
      → Deletion hs name tailnet key_id t x
  not_expired :
      (k : PreAuthKey)
      → Owned hs name k
      → format k.id ≡ key_id
      → t ≡ list_users ∷ list_pre_auth_keys name ∷ expire_pre_auth_key k.id ∷ []
      → Reported hs (expire_pre_auth_key k.id) x
      → Deletion hs name tailnet key_id t x
  not_deleted :
      (k : PreAuthKey)
      → Owned hs name k
      → format k.id ≡ key_id
      → t
        ≡ list_users
          ∷ list_pre_auth_keys name
          ∷ expire_pre_auth_key k.id
          ∷ delete_pre_auth_key k.id
          ∷ []
      → Reported hs (delete_pre_auth_key k.id) x
      → Deletion hs name tailnet key_id t x
  deleted :
      (k : PreAuthKey)
      → Owned hs name k
      → format k.id ≡ key_id
      → t
        ≡ list_users
          ∷ list_pre_auth_keys name
          ∷ expire_pre_auth_key k.id
          ∷ delete_pre_auth_key k.id
          ∷ []
      → Granted hs (expire_pre_auth_key k.id) tt
      → Granted hs (delete_pre_auth_key k.id) tt
      → x ≡ write_header 200
      → Deletion hs name tailnet key_id t x

abbrev Deletes : {S : Type 0} → HeadscaleClient S → Text → Text → Text → Effect Response
Deletes hs name tailnet key_id t es x = Deletion hs name tailnet key_id t (answer x)

module _ {S : Type 0} (hs : HeadscaleClient S) (sc : IsScoped hs) (name : Text)
    (configured : name ≢ dash) (named : name ≢ []) (r : Request) where
  expire_then_delete :
      (k : PreAuthKey)
      → Owned hs name k
      → format k.id ≡ url_param r (codes "keyId")
      → Does
          (call_or_error hs r (expire_pre_auth_key k.id)
            >> (call_or_error hs r (delete_pre_auth_key k.id) >> pure (write_header 200)))
          (λ t es x.
            Deletes hs name
              (url_param r (codes "tailnet"))
              (url_param r (codes "keyId"))
              (list_users ∷ list_pre_auth_keys name ∷ t)
              es
              x)
  expire_then_delete k own same =
      Does-call_or_error hs r (expire_pre_auth_key k.id) _ _
        (λ s e p. not_expired k own same refl (reported hs (expire_pre_auth_key k.id) s e p))
        (λ s a p.
          Does-call_or_error hs r (delete_pre_auth_key k.id) _ _
            (λ s' e p'.
              not_deleted k own same refl (reported hs (delete_pre_auth_key k.id) s' e p'))
            (λ s' a' p'.
              Does-pure (write_header 200) (deleted k own same refl (s, p) (s', p') refl)))

  -- With a nonempty tailnet name configured and a scoped client, a request to delete a key makes the
  -- calls of one of the five cases: nothing is expired or deleted but a key of the configured user
  -- that has the id in the path, it is deleted only after it was expired, and the response is 200 if
  -- the client granted both calls; it fails only if the tailnet or the key is not found or the client
  -- answers a call with an error, which it reports.
  pub delete_key-Deletion :
      (w : World S)
      → (t : List Rpc) × ((delete_key hs name r w).1.calls ≡ w.calls ++ t)
        × Deletion hs name
            (url_param r (codes "tailnet"))
            (url_param r (codes "keyId"))
            t
            (delete_key hs name r w).0
  unfolding delete_key
  delete_key-Deletion w =
      let all =
        Does-find_key hs sc name configured named r (url_param r (codes "keyId"))
          (Deletes hs name (url_param r (codes "tailnet")) (url_param r (codes "keyId")))
          (λ key.
            call_or_error hs r (expire_pre_auth_key key.id)
            >> (call_or_error hs r (delete_pre_auth_key key.id) >> pure (write_header 200)))
          (λ es x h. unresolved refl h) (λ es x h. unlisted refl h) expire_then_delete in
      let (t, es, calls, errors, made) = all.at w in (t, calls, made)

-- ===== src/Api/Keys.antt =====
-- internal/api/keys.go: auth keys, scoped to the user that a tailnet stands for.
pub mod Tenancy
pub mod Steps
pub mod Deletion
pub mod Reading
pub mod Creation
use headtotails.Prelude.{
  ℕ, ◌≡◌, refl, Bool, true, false, not, ◌&&◌, ◌||◌, Option, none, some, List, [], ◌∷◌, ◌++◌, map,
  length, nat_eq, if◌then◌else◌,
}
use headtotails.Text.{Text, codes, ◌==◌}
use headtotails.Text.Decimal.{format}
use headtotails.Time.{Time}
use headtotails.Proto.{User, PreAuthKey, GrpcError, Outcome, ok, err}
use headtotails.Headscale.{
  Rpc, list_pre_auth_keys, create_pre_auth_key, expire_pre_auth_key, delete_pre_auth_key,
  list_users, HeadscaleClient,
}
use headtotails.Translate.{pre_auth_key_to_key, key_request_to_create_pre_auth_key_request}
use headtotails.Api.Http.{
  Request, JsonDecoder, url_param, Response, keys_json, key_json, write_json, write_error,
  write_header,
}
use headtotails.Api.Handler.{World, Handler, HandlerFunc, pure, respond, call, run, ◌>>=◌, ◌>>◌}
use headtotails.Api.Errors.{write_grpc_error, call_or_error, or_bad_request}

-- An error of `resolveTailnetUser`: a `*keyResolveError`, or what the client returned.
pub data ResolveError : Type 0 where
  key_resolve_error : ℕ → Text → ResolveError
  upstream : GrpcError → ResolveError

pub data Resolved : Type 0 where
  resolved : User → Resolved
  refused : ResolveError → Resolved

-- The loop over the users.
unfoldable pub find_by_name : Text → List User → Option User
find_by_name name [] = none
find_by_name name (u ∷ users) = if u.name == name then some u else find_by_name name users

abbrev pub dash : Text
dash = codes "-"

abbrev pub tailnet_not_found : Text → ResolveError
tailnet_not_found tailnet =
    key_resolve_error 404 (codes "tailnet " ++ tailnet ++ codes " not found")

-- `return users[0]`, if there is one user.
abbrev pub only_user : List User → Resolved
only_user (u ∷ []) = resolved u
only_user _ =
    refused
      (key_resolve_error 400 (codes "tailnet is ambiguous; set TAILNET_NAME to a dedicated user"))

abbrev pub by_name : Text → Option User → Resolved
by_name tailnet (some u) = resolved u
by_name tailnet none = refused (tailnet_not_found tailnet)

-- `resolveTailnetUser` behind the call of `ListUsers`: the name configured, the tailnet in the
-- path, the users.
unfoldable pub select_user : Text → Text → List User → Resolved
unfolding find_by_name
select_user name tailnet [] = refused (key_resolve_error 404 (codes "no users exist in headscale"))
select_user name tailnet (u ∷ users) =
    let wanted = if tailnet == dash then name else tailnet in
    if wanted == dash
    then only_user (u ∷ users)
    else if not (name == dash) && not (tailnet == dash) && not (tailnet == name)
    then refused (tailnet_not_found tailnet)
    else by_name tailnet (find_by_name wanted (u ∷ users))

abbrev pub resolve_among : Text → Text → Outcome (List User) → Resolved
resolve_among name tailnet (err e) = refused (upstream e)
resolve_among name tailnet (ok users) = select_user name tailnet users

unfoldable pub find_key_by_id : List PreAuthKey → Text → Option PreAuthKey
find_key_by_id [] id = none
find_key_by_id (k ∷ keys) id = if format k.id == id then some k else find_key_by_id keys id

-- `if err != nil { writeResolveError(w, r, err); return }`.
unfoldable pub or_resolve_error : {S : Type 0} → Request → Resolved → Handler S User
or_resolve_error r (resolved u) = pure u
or_resolve_error r (refused (key_resolve_error status msg)) = respond (write_error status msg)
or_resolve_error r (refused (upstream e)) = write_grpc_error r e

-- `if key == nil { writeError(…); return }`.
unfoldable pub or_key_not_found : {S : Type 0} → Text → Option PreAuthKey → Handler S PreAuthKey
or_key_not_found id (some k) = pure k
or_key_not_found id none = respond (write_error 404 (codes "key " ++ id ++ codes " not found"))

module _ {S : Type 0} (hs : HeadscaleClient S) (tailnet_name : Text) where
  unfoldable pub resolve_tailnet_user : Text → Handler S Resolved
  unfolding select_user
  resolve_tailnet_user tailnet = do
    users ← call hs list_users
    pure (resolve_among tailnet_name tailnet users)

  -- The user that the tailnet of the path stands for.
  abbrev pub tailnet_user : Request → Handler S User
  tailnet_user r = do
    user ← resolve_tailnet_user (url_param r (codes "tailnet"))
    or_resolve_error r user

  unfoldable pub list_keys : HandlerFunc S
  unfolding resolve_tailnet_user or_resolve_error
  list_keys r = run do
    user ← tailnet_user r
    keys ← call_or_error hs r (list_pre_auth_keys user.name)
    pure (
        write_json 200 (keys_json (record { keys = map (λ k. pre_auth_key_to_key (some k)) keys })))

  unfoldable pub create_key : Time → JsonDecoder → HandlerFunc S
  unfolding resolve_tailnet_user or_resolve_error
  create_key now decode r = run do
    user ← tailnet_user r
    req ← or_bad_request (codes "invalid request body") (decode.create_key r)
    key ←
        call_or_error hs r
          (create_pre_auth_key (key_request_to_create_pre_auth_key_request now req user.id))
    pure (write_json 200 (key_json (pre_auth_key_to_key key)))

  -- The key of a user with an id, or the response that ends the request.
  abbrev pub find_key : Request → Text → Handler S PreAuthKey
  find_key r key_id = do
    user ← tailnet_user r
    keys ← call_or_error hs r (list_pre_auth_keys user.name)
    or_key_not_found key_id (find_key_by_id keys key_id)

  unfoldable pub get_key : HandlerFunc S
  unfolding resolve_tailnet_user or_resolve_error or_key_not_found
  get_key r = run do
    key ← find_key r (url_param r (codes "keyId"))
    pure (write_json 200 (key_json (pre_auth_key_to_key (some key))))

  unfoldable pub delete_key : HandlerFunc S
  unfolding resolve_tailnet_user or_resolve_error or_key_not_found
  delete_key r = run do
    key ← find_key r (url_param r (codes "keyId"))
    call_or_error hs r (expire_pre_auth_key key.id)
    call_or_error hs r (delete_pre_auth_key key.id)
    pure (write_header 200)

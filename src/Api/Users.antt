-- ===== src/Api/Users.antt =====
-- internal/api/users.go.
use headtotails.Prelude.{Option, none, some, ◌++◌, map}
use headtotails.Text.{Text, codes}
use headtotails.Text.Decimal.{parse_uint}
use headtotails.Proto.{User}
use headtotails.Headscale.{list_users, delete_user, HeadscaleClient}
use headtotails.Translate.{user_to_tailscale_user, find_user_by_id}
use headtotails.Api.Http.{url_param, users_json, user_json, write_json, write_error, write_header}
use headtotails.Api.Handler.{Handler, HandlerFunc, pure, respond, run, ◌>>=◌, ◌>>◌}
use headtotails.Api.Errors.{call_or_error, or_bad_request}

-- `if u == nil { writeError(…); return }`.
abbrev pub or_user_not_found : {S : Type 0} → Text → Option User → Handler S User
or_user_not_found id (some u) = pure u
or_user_not_found id none = respond (write_error 404 (codes "user " ++ id ++ codes " not found"))

module _ {S : Type 0} (hs : HeadscaleClient S) where
  unfoldable pub list_users_handler : HandlerFunc S
  list_users_handler r = run do
    users ← call_or_error hs r list_users
    pure (write_json 200 (users_json (record { users = map user_to_tailscale_user users })))

  unfoldable pub get_user : HandlerFunc S
  get_user r = run do
    users ← call_or_error hs r list_users
    u ←
        or_user_not_found (url_param r (codes "userId"))
          (find_user_by_id users (url_param r (codes "userId")))
    pure (write_json 200 (user_json (user_to_tailscale_user u)))

  unfoldable pub delete_user_handler : HandlerFunc S
  delete_user_handler r = run do
    id ← or_bad_request (codes "invalid user id") (parse_uint (url_param r (codes "userId")))
    call_or_error hs r (delete_user id)
    pure (write_header 200)

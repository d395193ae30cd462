-- ===== src/Api/Http.antt =====
-- Requests and responses, as far as the handlers read and write them, and the two writers of
-- internal/api/errors.go.
use headtotails.Prelude.{ℕ, Bool, Option, none, some, List, [], ◌∷◌, if◌then◌else◌}
use headtotails.Text.{Text, codes, ◌==◌}
use headtotails.Model.{
  Key, KeyList, Device, DeviceList, DeviceRoutes, User, UserList, Error, CreateKeyRequest,
  DeviceAuthorizeRequest, DeviceNameRequest, DeviceTagsRequest, DeviceRoutesRequest,
}

-- What net/http and the router make of a request: two headers ("" if absent), the result of
-- `r.BasicAuth()`, whether `r.ParseForm()` fails, the form's values, the parameters of the route,
-- the route's pattern, the id that chi's middleware gave it, and the whole body (`none` if reading
-- it fails).
pub record Request : Type 0 where
  pub method : Text
  pub route : Text
  pub request_id : Text
  pub authorization : Text
  pub accept : Text
  pub basic_auth : Option (Text × Text)
  pub form_error : Bool
  pub form : List (Text × Text)
  pub params : List (Text × Text)
  pub body : Option Text

-- The first value of a name, or "".
unfoldable pub value_of : Text → List (Text × Text) → Text
value_of name [] = []
value_of name ((k, v) ∷ rest) = if k == name then v else value_of name rest

-- `r.FormValue(name)`.
abbrev pub form_value : Request → Text → Text
form_value r name = value_of name r.form

-- `chi.URLParam(r, name)`.
abbrev pub url_param : Request → Text → Text
url_param r name = value_of name r.params

-- `json.NewDecoder(r.Body).Decode(&req)` for each type of body; `none` is an error. Decoding is
-- left to package encoding/json: it is a parameter of the handlers.
pub record JsonDecoder : Type 0 where
  pub create_key : Request → Option CreateKeyRequest
  pub device_authorize : Request → Option DeviceAuthorizeRequest
  pub device_name : Request → Option DeviceNameRequest
  pub device_tags : Request → Option DeviceTagsRequest
  pub device_routes : Request → Option DeviceRoutesRequest

-- `oauthTokenResponse` of auth.go.
pub record OauthTokenResponse : Type 0 where
  pub access_token : Text
  pub token_type : Text
  pub expires_in : ℕ

-- The values that are encoded as the body of a response.
pub data Body : Type 0 where
  no_body : Body
  error_json : Error → Body
  token_json : OauthTokenResponse → Body
  devices_json : DeviceList → Body
  device_json : Device → Body
  routes_json : DeviceRoutes → Body
  keys_json : KeyList → Body
  key_json : Key → Body
  users_json : UserList → Body
  user_json : User → Body
  policy_json : Text → Body
  status_json : Text → Body
  raw : Text → Body

pub record Response : Type 0 where
  pub status : ℕ
  pub content_type : Option Text
  pub body : Body

unfoldable pub write_json : ℕ → Body → Response
write_json status v = record {
  status = status;
  content_type = some (codes "application/json");
  body = v;
}

unfoldable pub write_error : ℕ → Text → Response
write_error status msg = record {
  status = status;
  content_type = some (codes "application/json");
  body = error_json (record { message = msg });
}

-- `w.WriteHeader(status)` with nothing behind it.
abbrev pub write_header : ℕ → Response
write_header status = record { status = status; content_type = none; body = no_body }

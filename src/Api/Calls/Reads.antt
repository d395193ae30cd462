-- ===== src/Api/Calls/Reads.antt =====
-- The steps of the handlers of internal/api that only read, under any relation of Calls.
use headtotails.Prelude.{◌≡◌, refl, Bool, true, false, Option, none, some}
use headtotails.Text.{Text}
use headtotails.Proto.{User, Node, PreAuthKey}
use headtotails.Headscale.{
  Rpc, list_nodes, get_node, list_pre_auth_keys, list_users, get_policy, Reply, HeadscaleClient,
}
use headtotails.Api.Http.{Request, Response}
use headtotails.Api.Errors.{call_or_error}
use headtotails.Api.Handler.{World, pure, ◌>>=◌}
use headtotails.Api.Calls.{
  Allows, is_plain, Makes, Makes-pure, Makes-respond, Makes-or_bad_request, Makes-bind,
}
use headtotails.Api.Keys.{or_key_not_found, tailnet_user, find_key, find_key_by_id}
use headtotails.Api.Devices.{valid_id, parse_device_id}
use headtotails.Api.Users.{or_user_not_found}

-- The calls that ask headscale for something and change nothing.
abbrev pub reads : Rpc → Bool
reads (list_nodes name) = true
reads (get_node id) = true
reads (list_pre_auth_keys name) = true
reads list_users = true
reads get_policy = true
reads _ = false

abbrev pub IsRead : Rpc → Type 0
IsRead q = reads q ≡ true

-- The steps of the handlers that read, under a relation that allows to read.
module _ {S : Type 0} {hs : HeadscaleClient S} {R : World S → World S → Type 0} {P : Rpc → Type 0}
    (rules : Allows hs R P) (may_read : (q : Rpc) → IsRead q → P q) where
  or_key_not_found-Makes : (id : Text) (o : Option PreAuthKey) → Makes R (or_key_not_found id o)
  unfolding or_key_not_found
  or_key_not_found-Makes id (some k) = Makes-pure rules.composes k
  or_key_not_found-Makes id none = Makes-respond rules.composes _

  pub or_user_not_found-Makes : (id : Text) (o : Option User) → Makes R (or_user_not_found id o)
  or_user_not_found-Makes id (some u) = Makes-pure rules.composes u
  or_user_not_found-Makes id none = Makes-respond rules.composes _

  module _ (r : Request) where
    -- One call that may fail, and a response made of its result.
    pub shown :
        (q : Rpc) (show : Reply q → Response)
        → P q
        → is_plain q ≡ true
        → Makes R (call_or_error hs r q >>= λ a. pure (show a))
    shown q show p plain =
        Makes-bind rules.composes _ (λ a. Makes-pure rules.composes (show a)) (call_or_error hs r q)
          (rules.asks r q p plain)

    pub shown_by_id :
        (show : Option Node → Response)
        → Makes R (valid_id r >>= λ id. call_or_error hs r (get_node id) >>= λ a. pure (show a))
    shown_by_id show =
        Makes-bind rules.composes _
          (λ id. shown (get_node id) show (may_read (get_node id) refl) refl) (valid_id r)
          (Makes-or_bad_request rules.composes _ (parse_device_id r))

    pub find_key-Makes : (name id : Text) → Makes R (find_key hs name r id)
    find_key-Makes name id =
        Makes-bind rules.composes _
          (λ u.
            Makes-bind rules.composes _ (λ ks. or_key_not_found-Makes id (find_key_by_id ks id))
              (call_or_error hs r (list_pre_auth_keys u.name))
              (rules.asks r (list_pre_auth_keys u.name) (may_read (list_pre_auth_keys u.name) refl)
                refl))
          (tailnet_user hs name r) (rules.resolves name r (may_read list_users refl))

-- ===== src/Tests/Keys.antt =====
-- The handlers of keys, devices, users and the policy on the small tailnet.
use headtotails.Prelude.{◌≡◌, refl, ◌≢◌, ◌↔◌, ◌++◌, List, [], ◌∷◌, arith}
use headtotails.Text.{Text, codes}
use headtotails.Headscale.{Rpc, get_policy}
use headtotails.Headscale.Client.{grpc_client}
use headtotails.Headscale.Client.Laws.{grpc_client-IsScoped}
use headtotails.Api.Http.{url_param, write_json}
use headtotails.Api.Handler.{call}
use headtotails.Api.Keys.{resolved, dash, select_user, delete_key, create_key, list_keys, get_key}
use headtotails.Api.Keys.Tenancy.{IsTenant, select_user_iff}
use headtotails.Api.Keys.Deletion.{Deletion, delete_key-Deletion}
use headtotails.Api.Keys.Creation.{Creation, create_key-Creation}
use headtotails.Api.Keys.Reading.{Reading, Listing, get_key-Reading, list_keys-Listing}
use headtotails.Api.Endpoints.{device_name, asked, serve}
use headtotails.Api.Endpoints.Answers.{Answer, serve-Answer}
use headtotails.Api.Devices.{authorize_device}
use headtotails.Api.Devices.Authorize.{Approval, authorize_device-Approval}
use headtotails.Api.Policy.{get_policy_handler, set_policy_handler}
use headtotails.Api.Policy.Laws.{
  KeepsPolicy, Gives, Shows, get_policy_handler-Shows, set-get_policy,
}
use headtotails.Tests.{alice, bob, tailnet, conn, client, world, request, decoder}

abbrev own : Text
own = codes "alice"

own-ne-dash : own ≢ dash
own-ne-dash = ground arith

own-ne-nil : own ≢ []
own-ne-nil = ground arith

delete_key-Deletion_example :
    (t : List Rpc) × ((delete_key client own request world).1.calls ≡ world.calls ++ t)
    × Deletion client own
        (url_param request (codes "tailnet"))
        (url_param request (codes "keyId"))
        t
        (delete_key client own request world).0
delete_key-Deletion_example =
    delete_key-Deletion client (grpc_client-IsScoped tailnet conn) own own-ne-dash own-ne-nil
      request world

create_key-Creation_example :
    (t : List Rpc) × ((create_key client own 0 decoder request world).1.calls ≡ world.calls ++ t)
    × Creation client own
        (url_param request (codes "tailnet"))
        0
        (decoder.create_key request)
        t
        (create_key client own 0 decoder request world).0
create_key-Creation_example = create_key-Creation client own own-ne-dash 0 decoder request world

get_key-Reading_example :
    (t : List Rpc) × ((get_key client own request world).1.calls ≡ world.calls ++ t)
    × Reading client own
        (url_param request (codes "tailnet"))
        (url_param request (codes "keyId"))
        t
        (get_key client own request world).0
get_key-Reading_example =
    get_key-Reading client (grpc_client-IsScoped tailnet conn) own own-ne-dash own-ne-nil request
      world

list_keys-Listing_example :
    (t : List Rpc) × ((list_keys client own request world).1.calls ≡ world.calls ++ t)
    × Listing client own
        (url_param request (codes "tailnet"))
        t
        (list_keys client own request world).0
list_keys-Listing_example =
    list_keys-Listing client (grpc_client-IsScoped tailnet conn) own own-ne-dash own-ne-nil request
      world

select_user_iff_example :
    (select_user own dash (alice ∷ bob ∷ []) ≡ resolved alice)
    ↔ IsTenant own dash (alice ∷ bob ∷ []) alice
select_user_iff_example = select_user_iff own dash (alice ∷ bob ∷ []) alice

serve-Answer_example :
    Answer client
      (asked decoder request device_name)
      world
      (serve client decoder device_name request world)
serve-Answer_example = serve-Answer client decoder request world device_name

authorize_device-Approval_example :
    (t : List Rpc) × ((authorize_device client decoder request world).1.calls ≡ world.calls ++ t)
    × Approval client decoder request t (authorize_device client decoder request world).0
authorize_device-Approval_example = authorize_device-Approval client decoder request world

client-KeepsPolicy : KeepsPolicy client
unfolding grpc_client
client-KeepsPolicy p s h = refl

abbrev hujson : Text
hujson = codes "{\"acls\":[]}"

set_succeeds : (set_policy_handler client request world).0.status ≡ 200
unfolding set_policy_handler call grpc_client write_json
set_succeeds = refl

set-get_policy_example :
    Gives request hujson
      (get_policy_handler client request (set_policy_handler client request world).1).0
set-get_policy_example =
    set-get_policy client client-KeepsPolicy request request hujson world refl set_succeeds

get_policy_handler-Shows_example :
    Shows request world
      (get_policy_handler client request world)
      (client [] get_policy world.upstream).0
get_policy_handler-Shows_example = get_policy_handler-Shows client request world

-- ===== src/Tests/Tenancy.antt =====
-- A process that is asked to delete a key.
use headtotails.Prelude.{refl, none, List, [], ◌∷◌, arith, All}
use headtotails.Text.{Text, codes}
use headtotails.Api.Router.Serve.{Setup, request, Moment, run_app, new_app}
use headtotails.Api.Router.Permissions.{Permitted}
use headtotails.Api.Router.Tenancy.{run_app-Permitted}
use headtotails.Headscale.Client.Laws.{grpc_client-IsScoped}
use headtotails.Tests
use headtotails.Tests.Routing.{setup, find, incoming}

-- Alice's key is deleted.
abbrev of_keys : Setup Text Unit
of_keys = record setup {
  lib = record setup.lib {
    find = λ method path. record (find method path) {
      pattern = codes "/tailnet/{tailnet}/keys/{keyId}";
      params = (codes "tailnet", codes "-") ∷ (codes "keyId", codes "7") ∷ [];
    };
  };
}

abbrev deletion : List Moment
deletion =
    record {
      time = 1;
      arrival =
          request
            (record incoming { request = record incoming.request { method = codes "DELETE" } })
            none;
    }
    ∷ []

run_app-Permitted_example :
    All
      (Permitted Tests.client (codes "alice"))
      (run_app of_keys deletion (new_app Tests.world tt)).world.calls
run_app-Permitted_example =
    run_app-Permitted of_keys (grpc_client-IsScoped Tests.tailnet Tests.conn) (ground arith)
      (ground arith) deletion Tests.world tt refl

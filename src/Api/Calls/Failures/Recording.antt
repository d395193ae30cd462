-- ===== src/Api/Calls/Failures/Recording.antt =====
-- The handlers of internal/api report the failures of a recording client, by the rules of Calls.
use headtotails.Prelude.{
  ◌≡◌, refl, sym, inl, inr, Bool, true, false, Bool-cases, Option, List, [], ◌∷◌, ◌++◌, append-nil,
  none, some, not, ◌&&◌, if◌then◌else◌,
}
use headtotails.Text.{Text, codes, ◌==◌}
use headtotails.Proto.{User, Code, GrpcError, Outcome, ok, err}
use headtotails.Headscale.{Rpc, get_policy, list_users, Reply, HeadscaleClient}
use headtotails.Api.Http.{Request, Response, url_param}
use headtotails.Api.Handler.{World, Flow, done, next, continue, call, pure}
use headtotails.Api.Errors.{
  write_grpc_error, grpc_status_to_http, observe_grpc_error, or_grpc_error,
}
use headtotails.Api.Keys.{
  resolve_tailnet_user, resolve_among, select_user, by_name, only_user, dash, find_by_name,
  Resolved, resolved, refused, upstream, key_resolve_error, or_resolve_error,
}
use headtotails.Api.Policy.{or_empty_policy, is_unset}
use headtotails.Api.Calls.{Allows, is_plain}
use headtotails.Api.Calls.Failures.{
  FailedCall, failures_of, recording, overlooked, noticed, Reports, status_lem, level_lem,
  Reports-Composes,
}

overlooked_plain : (q : Rpc) (c : Code) → is_plain q ≡ true → overlooked q c ≡ false
overlooked_plain get_policy c h = cc
overlooked_plain _ c h = refl

-- A look-up of a user that reports nothing of headscale.
abbrev is_local : Resolved → Bool
is_local (refused (upstream e)) = false
is_local _ = true

by_name-is_local : (name : Text) (o : Option User) → is_local (by_name name o) ≡ true
by_name-is_local name (some u) = refl
by_name-is_local name none = refl

only_user-is_local : (us : List User) → is_local (only_user us) ≡ true
only_user-is_local [] = refl
only_user-is_local (u ∷ []) = refl
only_user-is_local (u ∷ v ∷ us) = refl

select_user-is_local :
    (name tailnet : Text) (us : List User) → is_local (select_user name tailnet us) ≡ true
unfolding select_user
select_user-is_local name tailnet [] = refl
select_user-is_local name tailnet (u ∷ us) =
    let wanted = if tailnet == dash then name else tailnet in
    elim (Bool-cases (wanted == dash)) [
      | inl any ↦ rw any (only_user-is_local (u ∷ us))
      | inr one ↦
          elim (Bool-cases (not (name == dash) && not (tailnet == dash) && not (tailnet == name))) [
            | inl foreign ↦ rw (one, foreign) refl
            | inr own ↦ rw (one, own) (by_name-is_local tailnet (find_by_name wanted (u ∷ us)))
          ]
    ]

module _ {S : Type 0} where
  -- The world after a call that was answered so.
  abbrev after :
      (q : Rpc) → Outcome (Reply q) → S → World (S × List FailedCall) → World (S × List FailedCall)
  after q o s w = record w {
    upstream = (s, w.upstream.1 ++ failures_of q o);
    calls = w.calls ++ q ∷ [];
  }

  -- Nothing is reported of the call.
  silent :
      (q : Rpc) (o : Outcome (Reply q)) (s : S) (w : World (S × List FailedCall))
      → noticed (failures_of q o) ≡ []
      → Reports w (after q o s w)
  silent q o s w h = record {
    failed = failures_of q o;
    logged = [];
    made = refl;
    counts = rw h (sym (append-nil w.grpc_errors));
    logs = sym (append-nil w.log);
    one_each = rw h tt;
  }

  -- Its error is.
  reported :
      (r : Request) (q : Rpc) (e : GrpcError) (s : S) (w : World (S × List FailedCall))
      → overlooked q e.code ≡ false
      → Reports w (observe_grpc_error r e (after q (err e) s w))
  unfolding observe_grpc_error
  reported r q e s w h = record {
    failed = failures_of q (err e);
    logged = _;
    made = refl;
    counts = rw h refl;
    logs = refl;
    one_each = rw h (
      record {
        code = refl;
        message = refl;
        status = status_lem e.code;
        level = level_lem (grpc_status_to_http e.code);
      },
      tt,
    );
  }

  or_grpc_error-Reports :
      (r : Request) (q : Rpc) (o : Outcome (Reply q)) (s : S) (w : World (S × List FailedCall))
      → is_plain q ≡ true
      → Reports w (or_grpc_error r o (after q o s w)).1
  unfolding write_grpc_error
  or_grpc_error-Reports r q (ok a) s w plain = silent q (ok a) s w refl
  or_grpc_error-Reports r q (err e) s w plain = reported r q e s w (overlooked_plain q e.code plain)

  local-Reports :
      (r : Request) (o : Resolved) (w w' : World (S × List FailedCall))
      → is_local o ≡ true
      → Reports w w'
      → Reports w (or_resolve_error r o w').1
  unfolding or_resolve_error
  local-Reports r (resolved u) w w' h f = f
  local-Reports r (refused (key_resolve_error status msg)) w w' h f = f
  local-Reports r (refused (upstream e)) w w' h f = cc

  or_resolve_error-Reports :
      (name tailnet : Text) (r : Request) (o : Outcome (List User)) (s : S)
      (w : World (S × List FailedCall))
      → Reports w (or_resolve_error r (resolve_among name tailnet o) (after list_users o s w)).1
  unfolding write_grpc_error or_resolve_error
  or_resolve_error-Reports name tailnet r (ok us) s w =
      local-Reports r (select_user name tailnet us) w (after list_users (ok us) s w)
        (select_user-is_local name tailnet us) (silent list_users (ok us) s w refl)
  or_resolve_error-Reports name tailnet r (err e) s w = reported r list_users e s w refl

  or_empty_policy-Reports :
      (r : Request) (o : Outcome Text) (s : S) (w : World (S × List FailedCall))
      → Reports w (or_empty_policy r o (after get_policy o s w)).1
  unfolding write_grpc_error
  or_empty_policy-Reports r (ok text) s w = silent get_policy (ok text) s w refl
  or_empty_policy-Reports r (err e) s w = elim (Bool-cases (is_unset e.code)) [
    | inl unset ↦ rw unset (silent get_policy (err e) s w (rw unset refl))
    | inr known ↦ rw known (reported r get_policy e s w known)
  ]

  shown-Reports :
      (show : Text → Response) (w : World (S × List FailedCall))
      (x : Flow Text × World (S × List FailedCall))
      → Reports w x.1
      → Reports w (continue x (λ text. pure (show text))).1
  shown-Reports show w (done y, w') h = h
  shown-Reports show w (next text, w') h = h

  pub recording-Allows : (hs : HeadscaleClient S) → Allows (recording hs) Reports (λ q. Unit)
  unfolding call resolve_tailnet_user
  recording-Allows hs = record {
    composes = Reports-Composes;
    asks = λ r q p plain. record {
      at = λ w. or_grpc_error-Reports r q (hs [] q w.upstream.0).0 (hs [] q w.upstream.0).1 w plain;
    };
    resolves = λ name r p. record {
      at = λ w.
          or_resolve_error-Reports name (url_param r (codes "tailnet")) r
            (hs [] list_users w.upstream.0).0 (hs [] list_users w.upstream.0).1 w;
    };
    shows = λ r show p. record {
      at = λ w.
          shown-Reports show w
            (or_empty_policy r (hs [] get_policy w.upstream.0).0 (
              after get_policy (hs [] get_policy w.upstream.0).0 (hs [] get_policy w.upstream.0).1
                w))
            (or_empty_policy-Reports r (hs [] get_policy w.upstream.0).0
              (hs [] get_policy w.upstream.0).1 w);
    };
  }

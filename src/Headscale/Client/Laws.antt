-- ===== src/Headscale/Client/Laws.antt =====
-- What the handlers may rely on in `GRPCClient`.
use headtotails.Prelude.{
  ◌≡◌, ◌≢◌, ◌↔◌, true, List, [], ◌∷◌, arith, ap, Bool-cases, inl, inr, All, Among, subst,
}
use headtotails.Text.{Text, ne→eq}
use headtotails.Proto.{PreAuthKey, Outcome, ok, err}
use headtotails.Headscale.{list_pre_auth_keys, Context, HeadscaleClient}
use headtotails.Headscale.Service.{ServiceCall, Service}
use headtotails.Headscale.Client.{
  GrpcClient, with_api_key, owned_by, filter_keys, keys_for, grpc_client,
}

abbrev pub OwnedBy : Text → PreAuthKey → Type 0
OwnedBy user key = owned_by user key ≡ true

-- A client is scoped if the keys that it lists for a named user are that user's.
pub record IsScoped {S : Type 0} (hs : HeadscaleClient S) : Type 0 where
  pub scoped :
      (ctx : Context) (user : Text) (s : S) (keys : List PreAuthKey)
      → user ≢ []
      → (hs ctx (list_pre_auth_keys user) s).0 ≡ ok keys
      → All (OwnedBy user) keys

filter_keys-OwnedBy :
    (user : Text) (keys : List PreAuthKey) → All (OwnedBy user) (filter_keys user keys)
unfolding filter_keys
filter_keys-OwnedBy user [] = tt
filter_keys-OwnedBy user (key ∷ keys) = elim (Bool-cases (owned_by user key)) [
  | inl own ↦ rw own (own, filter_keys-OwnedBy user keys)
  | inr other ↦ rw other (filter_keys-OwnedBy user keys)
]

keys_for-OwnedBy :
    (user : Text) (r : Outcome (List PreAuthKey)) (keys : List PreAuthKey)
    → user ≢ []
    → keys_for user r ≡ ok keys
    → All (OwnedBy user) keys
unfolding keys_for
keys_for-OwnedBy user (err e) keys h p = cc
keys_for-OwnedBy user (ok listed) keys h p =
    let same : filter_keys user listed ≡ keys = ground (arith, ne→eq user [] h) in
    subst (All (OwnedBy user)) same (filter_keys-OwnedBy user listed)

pub grpc_client-IsScoped :
    {S : Type 0} (svc : Service S) (c : GrpcClient) → IsScoped (grpc_client svc c)
unfolding grpc_client
grpc_client-IsScoped svc c = record {
  scoped = λ ctx user s keys h p.
      keys_for-OwnedBy user (svc (with_api_key c ctx) ServiceCall.list_pre_auth_keys s).0 keys h p;
}

-- The keys listed for a user are exactly those of the service's keys that the user owns.
Among-filter_keys :
    (user : Text) (key : PreAuthKey) (keys : List PreAuthKey)
    → Among key (filter_keys user keys) ↔ (Among key keys × OwnedBy user key)
unfolding filter_keys
Among-filter_keys user key [] = (λ m. absurd m, λ h. h.0)
Among-filter_keys user key (k ∷ keys) =
    let (to, from) = Among-filter_keys user key keys in
    elim (Bool-cases (owned_by user k)) [
      | inl own ↦ rw own (
        elim [ inl e ↦ (inl e, rw e own) | inr m ↦ (inr (to m).0, (to m).1) ],
        λ h. elim h.0 [ inl e ↦ inl e | inr m ↦ inr (from (m, h.1)) ],
      )
      | inr other ↦ rw other (
        λ m. (inr (to m).0, (to m).1),
        λ h. elim h.0 [ inl e ↦ cc (h.1, other, ap (owned_by user) e) | inr m ↦ from (m, h.1) ],
      )
    ]

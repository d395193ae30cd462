-- ===== src/Api/Devices/Authorize.antt =====
-- `AuthorizeDevice` of internal/api/devices.go: its calls and its responses.
use headtotails.Prelude.{
  ℕ, ◌≡◌, refl, ◌⊎◌, inl, inr, Bool, true, false, Option, none, some, List, [], ◌∷◌, ◌++◌,
}
use headtotails.Text.{codes}
use headtotails.Proto.{User, Node, node_at}
use headtotails.Model.{DeviceAuthorizeRequest}
use headtotails.Headscale.{Rpc, get_node, auth_approve, HeadscaleClient}
use headtotails.Api.Http.{Request, JsonDecoder, Response, write_error, write_header}
use headtotails.Api.Handler.{World, answer, pure, ◌>>=◌}
use headtotails.Api.Errors.{call_or_error, or_bad_request}
use headtotails.Api.Effects.{
  Effect, Does, Does-pure, Does-respond, Does-call_or_error, Reported, Granted, reported,
}
use headtotails.Api.Devices.{parse_device_id, valid_body, approver, approve, authorize_device}

-- The node that the client returned for an id, in some state.
abbrev pub Got : {S : Type 0} → HeadscaleClient S → ℕ → Option Node → Type 0
Got hs id node = Granted hs (get_node id) node

abbrev approval_of : Option Node → Rpc
approval_of node = auth_approve (approver (node_at node).user) (node_at node).node_key

-- The call that approves a node: under its key, and for the user that owns it, or for "" if none
-- does; a nil node has no key.
pub data IsApproval : Option Node → Rpc → Type 0 where
  owned :
      (n : Node) (u : User) → n.user ≡ some u → IsApproval (some n) (auth_approve u.name n.node_key)
  unowned : (n : Node) → n.user ≡ none → IsApproval (some n) (auth_approve [] n.node_key)
  absent : IsApproval none (auth_approve [] [])

approver-IsApproval :
    (n : Node) (o : Option User)
    → n.user ≡ o
    → IsApproval (some n) (auth_approve (approver o) n.node_key)
approver-IsApproval n none e = unowned n e
approver-IsApproval n (some u) e = owned n u e

approval_of-IsApproval : (node : Option Node) → IsApproval node (approval_of node)
approval_of-IsApproval none = absent
approval_of-IsApproval (some n) = approver-IsApproval n n.user refl

-- How a request to authorize a device may end.
pub data Approval {S : Type 0} (hs : HeadscaleClient S) (decode : JsonDecoder) (r : Request)
    (t : List Rpc) (x : Response) : Type 0 where
  rejected :
      t ≡ []
      → (parse_device_id r ≡ none) ⊎ (decode.device_authorize r ≡ none)
      → x.status ≡ 400
      → Approval hs decode r t x
  not_read :
      (id : ℕ)
      → parse_device_id r ≡ some id
      → t ≡ get_node id ∷ []
      → Reported hs (get_node id) x
      → Approval hs decode r t x
  left_alone :
      (id : ℕ) (req : DeviceAuthorizeRequest)
      → parse_device_id r ≡ some id
      → decode.device_authorize r ≡ some req
      → req.authorized ≡ false
      → t ≡ get_node id ∷ []
      → x ≡ write_header 200
      → Approval hs decode r t x
  not_approved :
      (id : ℕ) (node : Option Node) (req : DeviceAuthorizeRequest) (q : Rpc)
      → parse_device_id r ≡ some id
      → decode.device_authorize r ≡ some req
      → req.authorized ≡ true
      → Got hs id node
      → IsApproval node q
      → t ≡ get_node id ∷ q ∷ []
      → Reported hs q x
      → Approval hs decode r t x
  approved :
      (id : ℕ) (node : Option Node) (req : DeviceAuthorizeRequest) (q : Rpc)
      → parse_device_id r ≡ some id
      → decode.device_authorize r ≡ some req
      → req.authorized ≡ true
      → Got hs id node
      → IsApproval node q
      → t ≡ get_node id ∷ q ∷ []
      → x ≡ write_header 200
      → Approval hs decode r t x

module _ {S : Type 0} (hs : HeadscaleClient S) (decode : JsonDecoder) (r : Request) where
  abbrev Approves : Effect Response
  Approves t es x = Approval hs decode r t (answer x)

  Does-approve :
      (id : ℕ) (req : DeviceAuthorizeRequest) (b : Bool) (node : Option Node)
      → parse_device_id r ≡ some id
      → decode.device_authorize r ≡ some req
      → req.authorized ≡ b
      → Got hs id node
      → Does (approve hs r b node) (λ t es x. Approves (get_node id ∷ t) es x)
  Does-approve id req false read p q b got =
      Does-pure (write_header 200) (left_alone id req p q b refl refl)
  Does-approve id req true read p q b got =
      Does-call_or_error hs r (approval_of read) _ (λ _. pure (write_header 200))
        (λ s e f.
          not_approved id read req (approval_of read) p q b got (approval_of-IsApproval read) refl
            (reported hs (approval_of read) s e f))
        (λ s a e. Does-pure (write_header 200) (
          approved id read req (approval_of read) p q b got (approval_of-IsApproval read) refl
            refl))

  Does-authorize :
      (id? : Option ℕ) (req? : Option DeviceAuthorizeRequest)
      → parse_device_id r ≡ id?
      → decode.device_authorize r ≡ req?
      → Does {S = S}
          (or_bad_request (codes "invalid device id") id? >>= λ id. valid_body req? >>= λ req.
            call_or_error hs r (get_node id) >>= λ node. approve hs r req.authorized node)
          Approves
  unfolding write_error
  Does-authorize none req? p q = Does-respond _ (rejected refl (inl p) refl)
  Does-authorize (some id) none p q = Does-respond _ (rejected refl (inr q) refl)
  Does-authorize (some id) (some req) p q =
      Does-call_or_error hs r (get_node id) Approves (λ node. approve hs r req.authorized node)
        (λ s e f. not_read id p refl (reported hs (get_node id) s e f))
        (λ s node e. Does-approve id req req.authorized node p q refl (s, e))

  -- A request to authorize a device is refused before any call for its id or its body, or reads the
  -- node with the id in the path. If the body asks for it, that node is then approved, under the key
  -- that was read and for the user that owns it, or for no user if it has none; a body that asks for no approval changes nothing.
  -- These two cases succeed, unless the client answers a call with an error, which is reported.
  pub authorize_device-Approval :
      (w : World S)
      → (t : List Rpc) × ((authorize_device hs decode r w).1.calls ≡ w.calls ++ t)
        × Approval hs decode r t (authorize_device hs decode r w).0
  unfolding authorize_device
  authorize_device-Approval w =
      let all = Does-authorize (parse_device_id r) (decode.device_authorize r) refl refl in
      let (t, es, calls, errors, made) = all.at w in (t, calls, made)

-- ===== src/Api/Sessions/Seen.antt =====
-- `tokenStore` of internal/api/auth.go as the bearer check sees it from a time on.
use headtotails.Prelude.{◌≤◌, ◌≡◌, refl, inl, inr, Bool-cases, arith}
use mathlib.Core.Quot.{Quot}
use headtotails.Text.{Text, ◌==◌}
use headtotails.Time.{Time}
use headtotails.Api.Http.{Request, Response}
use headtotails.Api.TokenStore.{
  TokenEntry, TokenStore, store, lookup, purge, lookup-store, lookup-purge,
}
use headtotails.Api.Bearer.{request_token, is_live, refusal}
use headtotails.Api.Bearer.Laws.{is_live-drop_if}
use headtotails.Api.Sessions.{Server, note}
use headtotails.Api.Sessions.Alike.{Alike, kept, put}

-- No request can tell the stores apart from a time on.
abbrev pub SameFrom : Time → TokenStore → TokenStore → Type 0
SameFrom last ts us =
    (k : Text) (now : Time) → last ≤ now → is_live now (lookup ts k) ≡ is_live now (lookup us k)

-- The abstract store: what requests can tell of it from then on.
abbrev pub Seen : Time → Type 0
Seen last = Quot (SameFrom last)

module _ (last : Time) (ts us : TokenStore) (h : SameFrom last ts us) where
  pub SameFrom-later : (now : Time) → last ≤ now → SameFrom now ts us
  SameFrom-later now le k after le' = h k after (omega arith)

  SameFrom-store : (tok : Text) (e : TokenEntry) → SameFrom last (store ts tok e) (store us tok e)
  SameFrom-store tok e k now le =
      rw (lookup-store ts tok k e, lookup-store us tok k e)
        (elim (Bool-cases (tok == k)) [ inl own ↦ rw own refl | inr other ↦ rw other (h k now le) ])

  pub SameFrom-purge : (now : Time) → last ≤ now → SameFrom now (purge now ts) us
  SameFrom-purge now le k after le' =
      rw (lookup-purge now ts k, is_live-drop_if now after (lookup ts k) le')
        (h k after (omega arith))

  pub refusal-SameFrom :
      (key : Text) (now : Time) (r : Request)
      → last ≤ now
      → refusal ts key now r ≡ refusal us key now r
  unfolding refusal
  refusal-SameFrom key now r le = rw (h (request_token r) now le) refl

-- The servers agree on what was sent and on the validator, and no request can tell their stores.
abbrev pub Agree : {V : Type 0} → Time → Server V → Server V → Type 0
Agree last s z =
    SameFrom last s.tokens z.tokens × (s.validator_state ≡ z.validator_state) × (s.sent ≡ z.sent)

module _ {V : Type 0} (now : Time) (s z : Server V) (same : SameFrom now s.tokens z.tokens)
    (sent : s.sent ≡ z.sent) where
  pub answered-Agree :
      (x y : Response × TokenStore) (v v' : V)
      → Alike s.tokens z.tokens x y
      → v ≡ v'
      → Agree now
          (record { tokens = x.1; validator_state = v; sent = note now x.0 s.sent })
          (record { tokens = y.1; validator_state = v'; sent = note now y.0 z.sent })
  answered-Agree x y v v' (kept e p q) same_v =
      (λ k after le. rw (p, q) (same k after le), same_v, rw (e, sent) refl)
  answered-Agree x y v v' (put tok entry e p q) same_v = (
    λ k after le. rw (p, q) (SameFrom-store now s.tokens z.tokens same tok entry k after le),
    same_v,
    rw (e, sent) refl,
  )

-- ===== src/Api/Sessions/Validity.antt =====
-- How long a token of the store is live.
use headtotails.Prelude.{
  ◌+◌, ◌≤◌, ◌<◌, ◌≡◌, sym, ap, ◌⊎◌, inl, inr, some, ◌∷◌, arith, Among, Bool-cases,
}
use headtotails.Text.{Text, ◌==◌, eq_iff}
use headtotails.Time.{Time, hour}
use headtotails.Api.TokenStore.{
  TokenEntry, TokenStore, store, lookup, purge, has_expired, lookup-store, lookup-purge,
  lookup-new_token_store,
}
use headtotails.Api.Oauth.{oauth_token_ttl}
use headtotails.Api.Sessions.{Server, new_server}

-- At the time of the last event: what is stored was sent an hour before it expires, and what was
-- sent has expired or is stored until an hour from then at least.
pub record IsFaithful {V : Type 0} (last : Time) (s : Server V) : Type 0 where
  pub was_sent :
      (tok : Text) (e : TokenEntry)
      → lookup s.tokens tok ≡ some e
      → (t : Time) × Among (tok, t) s.sent × (e.expiry ≡ t + hour)
  pub is_kept :
      (tok : Text) (t : Time)
      → Among (tok, t) s.sent
      → (t + hour < last)
        ⊎ ((e : TokenEntry) × (lookup s.tokens tok ≡ some e) × (t + hour ≤ e.expiry))
  pub is_past : (tok : Text) (t : Time) → Among (tok, t) s.sent → t ≤ last

pub new_server-IsFaithful : {V : Type 0} (v : V) (now : Time) → IsFaithful now (new_server v)
unfolding new_server
new_server-IsFaithful v now = record {
  was_sent = λ tok e h. cc (h, lookup-new_token_store tok);
  is_kept = λ tok t m. absurd m;
  is_past = λ tok t m. absurd m;
}

module _ {V : Type 0} (s : Server V) (last now : Time) (order : last ≤ now)
    (h : IsFaithful last s) where
  expired_or_kept :
      (k : Text) (t : Time) (ts : TokenStore)
      → ((e : TokenEntry)
          → lookup s.tokens k ≡ some e
          → t + hour ≤ e.expiry
          → (t + hour < now)
            ⊎ ((e' : TokenEntry) × (lookup ts k ≡ some e') × (t + hour ≤ e'.expiry)))
      → Among (k, t) s.sent
      → (t + hour < now) ⊎ ((e : TokenEntry) × (lookup ts k ≡ some e) × (t + hour ≤ e.expiry))
  expired_or_kept k t ts keep m = elim (h.is_kept k t m) [
    | inl late ↦ inl (omega arith)
    | inr (e, found, fits) ↦ keep e found fits
  ]

  pub advance-IsFaithful : (v : V) → IsFaithful now (record s { validator_state = v })
  advance-IsFaithful v = record {
    was_sent = h.was_sent;
    is_kept = λ k t m. expired_or_kept k t s.tokens (λ e p q. inr (e, p, q)) m;
    is_past = λ k t m. omega (arith, h.is_past k t m);
  }

  kept_by_purge :
      (k : Text) (t : Time) (e : TokenEntry)
      → lookup s.tokens k ≡ some e
      → t + hour ≤ e.expiry
      → (t + hour < now)
        ⊎ ((e' : TokenEntry) × (lookup (purge now s.tokens) k ≡ some e') × (t + hour ≤ e'.expiry))
  kept_by_purge k t e p q = elim (Bool-cases (has_expired now e)) [
    | inl gone ↦ inl (ground arith)
    | inr live ↦ inr (e, ground (arith, lookup-purge now s.tokens k, live), q)
  ]

  pub purge-IsFaithful : IsFaithful now (record s { tokens = purge now s.tokens })
  purge-IsFaithful = record {
    was_sent = λ k e p. h.was_sent k e (ground (arith, lookup-purge now s.tokens k, p));
    is_kept = λ k t m. expired_or_kept k t (purge now s.tokens) (kept_by_purge k t) m;
    is_past = λ k t m. omega (arith, h.is_past k t m);
  }

module _ {V : Type 0} (s : Server V) (last now : Time) (order : last ≤ now) (h : IsFaithful last s)
    (v : V) (tok : Text) where
  abbrev pub entry : TokenEntry
  entry = record { expiry = now + oauth_token_ttl }

  abbrev pub stored : TokenStore
  stored = store s.tokens tok entry

  stored_was_sent :
      (k : Text) (e : TokenEntry)
      → lookup stored k ≡ some e
      → (t : Time) × Among (k, t) ((tok, now) ∷ s.sent) × (e.expiry ≡ t + hour)
  stored_was_sent k e p = elim (Bool-cases (tok == k)) [
    | inl same ↦
        let at : lookup stored k ≡ some entry =
          ground (arith, lookup-store s.tokens tok k entry, same) in
        (now, inl (ap (λ x. (x, now)) (sym ((eq_iff tok k).0 same))), ground (arith, at, p))
    | inr other ↦
        let (t, m, q) =
          h.was_sent k e (ground (arith, lookup-store s.tokens tok k entry, other, p)) in
        (t, inr m, q)
  ]

  stored_is_past : (k : Text) (t : Time) → Among (k, t) ((tok, now) ∷ s.sent) → t ≤ now
  stored_is_past k t (inl e) = omega (arith, ap (λ (x : Text × Time). x.1) e)
  stored_is_past k t (inr m) = omega (arith, h.is_past k t m)

  kept_by_store :
      (k : Text) (t : Time) (e : TokenEntry)
      → t ≤ now
      → lookup s.tokens k ≡ some e
      → t + hour ≤ e.expiry
      → (t + hour < now)
        ⊎ ((e' : TokenEntry) × (lookup stored k ≡ some e') × (t + hour ≤ e'.expiry))
  kept_by_store k t e past p q = elim (Bool-cases (tok == k)) [
    | inl same ↦ inr (entry, ground (arith, lookup-store s.tokens tok k entry, same), omega arith)
    | inr other ↦ inr (e, ground (arith, lookup-store s.tokens tok k entry, other, p), q)
  ]

  stored_is_kept :
      (k : Text) (t : Time)
      → Among (k, t) ((tok, now) ∷ s.sent)
      → (t + hour < now) ⊎ ((e : TokenEntry) × (lookup stored k ≡ some e) × (t + hour ≤ e.expiry))
  stored_is_kept k t (inl e) =
      let same : k ≡ tok = ap (λ (x : Text × Time). x.0) e in
      inr (
        entry,
        ground (arith, lookup-store s.tokens tok k entry, eq_iff tok k, same),
        omega (arith, ap (λ (x : Text × Time). x.1) e),
      )
  stored_is_kept k t (inr m) =
      expired_or_kept s last now order h k t stored
        (λ e p q. kept_by_store k t e (stored_is_past k t (inr m)) p q) m

  pub store-IsFaithful :
      IsFaithful now (record { tokens = stored; validator_state = v; sent = (tok, now) ∷ s.sent })
  store-IsFaithful = record {
    was_sent = stored_was_sent;
    is_kept = stored_is_kept;
    is_past = stored_is_past;
  }

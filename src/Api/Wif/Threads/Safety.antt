-- ===== src/Api/Wif/Threads/Safety.antt =====
-- What the interleaved look-ups of keys, of `getKey` in internal/api/wif.go, keep true of the shared
-- cache and of each request.
use headtotails.Prelude.{
  ℕ, ◌≡◌, refl, subst, ◌≢◌, inl, inr, Option, none, some, List, Among, Bool-cases, nat_eq,
}
use headtotails.Text.{Text}
use headtotails.Dict
use headtotails.Dict.{Dict}
use headtotails.Api.Wif.Jwt.{PublicKey, Library}
use headtotails.Api.Wif.Validator.{JwksCache, ok, err, key_in}
use headtotails.Api.Wif.Acceptance.{cached_key-some}
use headtotails.Api.Wif.Threads.{
  Pc, looking, fetching, storing, reading, returned, crashed, Shared, Move, hit, miss, fetch_failed,
  fetched, stored, read, dereferenced, asked, update, System, Reach, start, later,
}

-- The key is in one of the key sets that the issuer has answered with so far in the run.
abbrev pub Published : List (Dict PublicKey) → Text → PublicKey → Type 0
Published heard kid key =
    (keys : Dict PublicKey) × Among keys heard × (Dict.get keys kid ≡ some key)

-- What holds of the cache and of each request.
abbrev CacheIsHeard : Shared → Type 0
CacheIsHeard m = (c : JwksCache) → m.cache ≡ some c → Among c.keys m.heard

abbrev AmongHeld : Option JwksCache → List (Dict PublicKey) → Type 0
AmongHeld none heard = Unit
AmongHeld (some c) heard = Among c.keys heard

abbrev Sound : Shared → Pc → Type 0
Sound m (looking kid) = Unit
Sound m (fetching kid) = Unit
Sound m (storing kid keys) = Among keys m.heard
Sound m (reading kid) = (c : JwksCache) × (m.cache ≡ some c)
Sound m (returned kid (ok key)) = Published m.heard kid key
Sound m (returned kid (err e)) = Unit
Sound m crashed = ⊥

-- A step adds key sets to the heard ones at most, and never empties the cache.
record Grows (m n : Shared) : Type 0 where
  hears : (keys : Dict PublicKey) → Among keys m.heard → Among keys n.heard
  keeps : (c : JwksCache) → m.cache ≡ some c → (d : JwksCache) × (n.cache ≡ some d)

Sound-Grows : {m n : Shared} → Grows m n → (p : Pc) → Sound m p → Sound n p
Sound-Grows g (looking kid) h = tt
Sound-Grows g (fetching kid) h = tt
Sound-Grows g (storing kid keys) h = g.hears keys h
Sound-Grows g (reading kid) (c, h) = g.keeps c h
Sound-Grows g (returned kid (ok key)) (keys, a, h) = (keys, g.hears keys a, h)
Sound-Grows g (returned kid (err e)) h = tt
Sound-Grows g crashed h = absurd h

same : {m : Shared} → Grows m m
same = record { hears = λ keys a. a; keeps = λ c h. (c, h) }

key_in-Published :
    (m : Shared) (kid : Text) (c : JwksCache)
    → Among c.keys m.heard
    → (o : Option PublicKey) → Dict.get c.keys kid ≡ o
    → Sound m (returned kid (key_in kid (some c)))
key_in-Published m kid c a none h = rw h tt
key_in-Published m kid c a (some key) h = rw h (c.keys, a, h)

not_nil : (m : Shared) (kid : Text) → m.cache ≡ none → Sound m (reading kid) → ⊥
not_nil m kid e (d, h) = cc

-- What a step leaves behind.
record Kept (m n : Shared) (q : Pc) : Type 0 where
  grows : Grows m n
  cached : CacheIsHeard n
  sound : Sound n q

record Invariant (s : System) : Type 0 where
  cached : CacheIsHeard s.shared
  sound : (i : ℕ) → Sound s.shared (s.pc i)

update-Sound :
    (m : Shared) (pc : ℕ → Pc) (i : ℕ) (p : Pc)
    → Sound m p
    → ((j : ℕ) → Sound m (pc j))
    → (j : ℕ) → Sound m (update pc i p j)
update-Sound m pc i p h hs j = elim (Bool-cases (nat_eq i j)) [
  | inl e ↦ rw e h
  | inr e ↦ rw e (hs j)
]

module _ {lib : Library} {issuer_url : Text} where
  Move-Kept :
      {m n : Shared} {p q : Pc}
      → CacheIsHeard m
      → Sound m p
      → Move lib issuer_url m p n q
      → Kept m n q
  Move-Kept {m} c h (hit {kid} now key e) =
      let (d, at, fresh, got) = cached_key-some now kid m.cache key e in
      record { grows = same; cached = c; sound = (d.keys, c d at, got) }
  Move-Kept c h (miss now e) = record { grows = same; cached = c; sound = tt }
  Move-Kept c h (fetch_failed issuer e p) = record { grows = same; cached = c; sound = tt }
  Move-Kept c h (fetched issuer keys p) = record {
    grows = record { hears = λ keys a. inr a; keeps = λ c h. (c, h) };
    cached = λ d e. inr (c d e);
    sound = inl refl;
  }
  Move-Kept {m} c h (stored {keys} now) = record {
    grows = record { hears = λ keys a. a; keeps = λ c h. (_, refl) };
    cached = λ d e. subst (λ o. AmongHeld o m.heard) e h;
    sound = (_, refl);
  }
  Move-Kept {m} c h (read {kid} d e) = record {
    grows = same;
    cached = c;
    sound = key_in-Published m kid d (c d e) (Dict.get d.keys kid) refl;
  }
  Move-Kept c h (dereferenced {m} {kid} e) = absurd (not_nil m kid e h)
  Move-Kept c h (asked next) = record { grows = same; cached = c; sound = tt }

  Reach-Invariant : {s : System} → Reach lib issuer_url s → Invariant s
  Reach-Invariant (start kids) = record { cached = λ c e. absurd (cc); sound = λ i. tt }
  Reach-Invariant (later {s} i {m} {p} r move) =
      let before = Reach-Invariant r in
      let kept = Move-Kept before.cached (before.sound i) move in
      record {
        cached = kept.cached;
        sound =
            update-Sound m s.pc i p kept.sound
              (λ j. Sound-Grows kept.grows (s.pc j) (before.sound j));
      }

  -- However the requests interleave, no look-up dereferences a nil cache, and one that returns a
  -- key returns what one of the key sets that the issuer has answered with holds under its id.
  pub Reach-Published :
      {s : System}
      → Reach lib issuer_url s
      → (i : ℕ)
      → (s.pc i ≢ crashed)
        × ((kid : Text) (key : PublicKey)
            → s.pc i ≡ returned kid (ok key)
            → Published s.shared.heard kid key)
  Reach-Published {s} r i = (
    λ e. subst (Sound s.shared) e ((Reach-Invariant r).sound i),
    λ kid key e. subst (Sound s.shared) e ((Reach-Invariant r).sound i),
  )

-- ===== src/Dict.antt =====
-- A Go map with string keys.
use headtotails.Prelude.{◌≡◌, Option, none, some, List, [], ◌∷◌, Bool, arith, if◌then◌else◌}
use headtotails.Text.{Text, ◌==◌, eq_iff}

-- The representation is private to this file: clients have the laws.
pub record Dict {ℓ} (V : Type ℓ) : Type ℓ where
  entries : List (Text × V)

module _ {ℓ} {V : Type ℓ} where
  find : Text → List (Text × V) → Option V
  find k [] = none
  find k ((j, v) ∷ m) = if j == k then some v else find k m

  without : Text → List (Text × V) → List (Text × V)
  without k [] = []
  without k ((j, v) ∷ m) = let rest = without k m in if j == k then rest else (j, v) ∷ rest

  -- The loop `for k, v := range m { if p(v) { delete(m, k) } }`.
  sweep : (V → Bool) → List (Text × V) → List (Text × V)
  sweep p [] = []
  sweep p ((j, v) ∷ m) = let rest = sweep p m in if p v then without j rest else (j, v) ∷ rest

  -- What a swept map holds at a key.
  abbrev pub drop_if : (V → Bool) → Option V → Option V
  drop_if p none = none
  drop_if p (some v) = if p v then none else some v

  find-without :
      (k j : Text) (m : List (Text × V))
      → find j (without k m) ≡ (if k == j then none else find j m)
  unfolding find without
  find-without k j [] = ground arith
  find-without k j ((i, v) ∷ m) =
      ground (arith, find-without k j m, eq_iff i k, eq_iff i j, eq_iff k j)

  find-sweep :
      (p : V → Bool) (k : Text) (m : List (Text × V)) → find k (sweep p m) ≡ drop_if p (find k m)
  unfolding find sweep
  find-sweep p k [] = ground arith
  find-sweep p k ((j, v) ∷ m) = ground (arith, find-sweep p k m, find-without j k (sweep p m))

  pub empty : Dict V
  empty = record { entries = [] }

  -- `v, ok := m[k]`.
  pub get : Dict V → Text → Option V
  unfolding find
  get d k = find k d.entries

  -- `m[k] = v`.
  pub put : Dict V → Text → V → Dict V
  unfolding without
  put d k v = record { entries = (k, v) ∷ without k d.entries }

  pub delete_if : (V → Bool) → Dict V → Dict V
  unfolding sweep
  delete_if p d = record { entries = sweep p d.entries }

  pub get-put :
      (d : Dict V) (k j : Text) (v : V) → get (put d k v) j ≡ (if k == j then some v else get d j)
  unfolding get put find
  get-put d k j v = ground (arith, find-without k j d.entries)

  pub get-delete_if :
      (p : V → Bool) (d : Dict V) (k : Text) → get (delete_if p d) k ≡ drop_if p (get d k)
  unfolding get delete_if
  get-delete_if p d k = find-sweep p k d.entries

pub get-empty {ℓ} : {V : Type ℓ} (k : Text) → get (empty {V = V}) k ≡ none
unfolding get empty find
get-empty k = ground arith

pub ruleset dict_laws = (get-empty, get-put, get-delete_if)

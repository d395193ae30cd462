-- ===== src/Api/Keys/Tenancy.antt =====
-- Which user a tailnet stands for.
use headtotails.Prelude.{◌≡◌, ◌≢◌, ◌↔◌, ◌⊎◌, some, List, [], ◌∷◌, arith, Among}
use headtotails.Text.{Text, eq_iff}
use headtotails.Proto.{User}
use headtotails.Api.Keys.{resolved, dash, find_by_name, select_user}

-- `u` is the first of the users with this name.
abbrev pub FirstNamed : Text → List User → User → Type 0
FirstNamed name [] u = ⊥
FirstNamed name (v ∷ users) u =
    ((u ≡ v) × (v.name ≡ name)) ⊎ ((v.name ≢ name) × FirstNamed name users u)

-- When a tailnet in the path stands for a user: with no tailnet configured "-" stands for the one
-- user that there is, and any other for the user of that name; a configured name stands for its
-- user, under "-" or under itself.
abbrev pub IsTenant : Text → Text → List User → User → Type 0
IsTenant name tailnet users u =
    ((name ≡ dash) × (tailnet ≡ dash) × (users ≡ u ∷ []))
    ⊎ ((name ≡ dash) × (tailnet ≢ dash) × FirstNamed tailnet users u)
    ⊎ ((name ≢ dash) × ((tailnet ≡ dash) ⊎ (tailnet ≡ name)) × FirstNamed name users u)

find_by_name_iff :
    (name : Text) (users : List User) (u : User)
    → (find_by_name name users ≡ some u) ↔ FirstNamed name users u
unfolding find_by_name
find_by_name_iff name [] u = ground arith
find_by_name_iff name (v ∷ users) u =
    ground (arith, find_by_name_iff name users u, eq_iff v.name name)

FirstNamed-sound :
    (name : Text) (users : List User) (u : User)
    → FirstNamed name users u
    → Among u users × (u.name ≡ name)
FirstNamed-sound name [] u h = absurd h
FirstNamed-sound name (v ∷ users) u h = ground (arith, FirstNamed-sound name users u)

-- The tailnet of the path is resolved to a user exactly when it stands for that user.
pub select_user_iff :
    (name tailnet : Text) (users : List User) (u : User)
    → (select_user name tailnet users ≡ resolved u) ↔ IsTenant name tailnet users u
unfolding select_user
select_user_iff name tailnet [] u = ground arith
select_user_iff name tailnet (v ∷ []) u = ground (
  arith,
  eq_iff tailnet dash,
  eq_iff name dash,
  eq_iff tailnet name,
  find_by_name_iff name (v ∷ []) u,
  find_by_name_iff tailnet (v ∷ []) u,
)
select_user_iff name tailnet (v ∷ v' ∷ users) u = ground (
  arith,
  eq_iff tailnet dash,
  eq_iff name dash,
  eq_iff tailnet name,
  find_by_name_iff name (v ∷ v' ∷ users) u,
  find_by_name_iff tailnet (v ∷ v' ∷ users) u,
)

-- If a tailnet is configured, no path leads to the keys of another user.
pub select_user-own :
    (name tailnet : Text) (users : List User) (u : User)
    → name ≢ dash
    → select_user name tailnet users ≡ resolved u
    → Among u users × (u.name ≡ name)
select_user-own name tailnet users u h p =
    ground (arith, (select_user_iff name tailnet users u).0 p, FirstNamed-sound name users u)

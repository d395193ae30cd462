-- ===== src/Translate/Users.antt =====
-- `FindUserByID` of internal/translate/user.go.
use headtotails.Prelude.{
  ℕ, ◌≡◌, sym, ◌≢◌, ◌↔◌, ◌⊎◌, inl, inr, true, some, List, [], ◌∷◌, arith, Among, ap, Bool-cases,
}
use headtotails.Text.{◌==◌, eq_iff}
use headtotails.Text.Decimal.{format, format_inj}
use headtotails.Proto.{User}
use headtotails.Translate.{find_user_by_id}

-- `u` is the first of the users with this id.
abbrev pub FirstWithId : ℕ → List User → User → Type 0
FirstWithId id [] u = ⊥
FirstWithId id (v ∷ users) u = ((u ≡ v) × (v.id ≡ id)) ⊎ ((v.id ≢ id) × FirstWithId id users u)

-- The user found by the print of a number is the first with this number for its id.
pub find_user_by_id-format_iff :
    (users : List User) (id : ℕ) (u : User)
    → (find_user_by_id users (format id) ≡ some u) ↔ FirstWithId id users u
unfolding find_user_by_id
find_user_by_id-format_iff [] id u = ground arith
find_user_by_id-format_iff (v ∷ users) id u = ground (
  arith,
  find_user_by_id-format_iff users id u,
  eq_iff (format v.id) (format id),
  format_inj v.id id,
  λ (e : v.id ≡ id). ap format e,
)

found_head :
    (w : User) (users : List User) (id : ℕ)
    → (format w.id == format id) ≡ true
    → (v : User) × (find_user_by_id (w ∷ users) (format id) ≡ some v) × (v.id ≡ id)
unfolding find_user_by_id
found_head w users id same =
    (w, ground (arith, same), format_inj w.id id ((eq_iff (format w.id) (format id)).0 same))

-- A user that is listed is found again by the id that the list shows.
find_user_by_id_complete :
    (users : List User) (u : User)
    → Among u users
    → (v : User) × (find_user_by_id users (format u.id) ≡ some v) × (v.id ≡ u.id)
unfolding find_user_by_id
find_user_by_id_complete [] u m = absurd m
find_user_by_id_complete (w ∷ users) u (inl e) =
    found_head w users u.id ((eq_iff (format w.id) (format u.id)).1 (ap (λ v. format v.id) (sym e)))
find_user_by_id_complete (w ∷ users) u (inr m) = elim (Bool-cases (format w.id == format u.id)) [
  | inl same ↦ found_head w users u.id same
  | inr other ↦
      let (v, p, q) = find_user_by_id_complete users u m in (v, ground (arith, other, p), q)
]

-- ===== src/GenMetricsDocs/Root.antt =====
-- `findRepoRoot`: the directories that its loop goes through.
use headtotails.Prelude.{
  ℕ, zero, suc, ◌≡◌, refl, sym, ap, ◌∙◌, subst, ◌⊎◌, inl, inr, ◌<◌, Bool, true, false, Bool-cases,
  Option, none, some, Option-cases, [], ◌∷◌, length, arith, nat_eq, if◌then◌else◌,
}
use headtotails.Text.{Text, ◌==◌, eq_iff}
use headtotails.GenMetricsDocs.{
  before_last_slash, cons_or, dir_of, has_go_mod, find_from, find_repo_root,
}

-- The directory n levels above.
abbrev pub above : ℕ → Text → Text
above zero dir = dir
above (suc n) dir = above n (dir_of dir)

abbrev Shorter : Text → Option Text → Type 0
Shorter s none = Unit
Shorter s (some p) = length p < length s

before_last_slash-Shorter : (s : Text) → Shorter s (before_last_slash s)
unfolding before_last_slash
before_last_slash-Shorter [] = tt
before_last_slash-Shorter (c ∷ s) = longer (before_last_slash s) (before_last_slash-Shorter s)
  where
    ended : (b : Bool) → Shorter (c ∷ s) (if b then some [] else none)
    ended true = omega arith
    ended false = tt

    longer : (o : Option Text) → Shorter s o → Shorter (c ∷ s) (cons_or c o)
    longer none h = ended (nat_eq c b'/')
    longer (some p) h = omega (arith, h)

-- The parent of an absolute path is absolute, and shorter unless it is the same.
dir_of-length :
    (s : Text) → (t : Text) × (dir_of (b'/' ∷ s) ≡ b'/' ∷ t) × ((length t < length s) ⊎ (t ≡ s))
unfolding dir_of before_last_slash
dir_of-length [] = ([], refl, inr refl)
dir_of-length (c ∷ s) = elim (Option-cases (before_last_slash (c ∷ s))) [
  | inl lacks ↦ ([], rw lacks refl, inl (omega arith))
  | inr (q, has) ↦
      (q, rw has refl, inl (subst (Shorter (c ∷ s)) has (before_last_slash-Shorter (c ∷ s))))
]

module _ (exists : Text → Bool) where
  -- The outcome for a directory: the nearest directory above with a go.mod, or none has one.
  abbrev pub Nearest : Text → Option Text → Type 0
  Nearest dir none = (n : ℕ) → has_go_mod exists (above n dir) ≡ false
  Nearest dir (some root) =
      (n : ℕ) × (root ≡ above n dir)
      × (has_go_mod exists root ≡ true)
      × ((m : ℕ) → m < n → has_go_mod exists (above m dir) ≡ false)

  Nearest-above :
      (dir : Text) (o : Option Text)
      → has_go_mod exists dir ≡ false
      → Nearest (dir_of dir) o
      → Nearest dir o
  Nearest-above dir none lacks h = further
    where
      further : (n : ℕ) → has_go_mod exists (above n dir) ≡ false
      further zero = lacks
      further (suc n) = h n
  Nearest-above dir (some root) lacks (n, e, has, first) = (suc n, e, has, below)
    where
      below : (m : ℕ) → m < suc n → has_go_mod exists (above m dir) ≡ false
      below zero k = lacks
      below (suc m) k = first m (omega (arith, k))

  all_above :
      (dir : Text)
      → dir_of dir ≡ dir
      → has_go_mod exists dir ≡ false
      → (n : ℕ) → has_go_mod exists (above n dir) ≡ false
  all_above dir same lacks zero = lacks
  all_above dir same lacks (suc n) = rw same (all_above dir same lacks n)

  -- A directory that is not the root has a shorter one above.
  shorter :
      (s : Text)
      → (dir_of (b'/' ∷ s) == b'/' ∷ s) ≡ false
      → (t : Text) × (dir_of (b'/' ∷ s) ≡ b'/' ∷ t) × (length t < length s)
  shorter s moved =
      let (t, up, l) = dir_of-length s in
      elim l [
        | inl less ↦ (t, up, less)
        | inr same ↦
            let equal = (eq_iff (dir_of (b'/' ∷ s)) (b'/' ∷ s)).1 (up ∙ ap (λ t. b'/' ∷ t) same) in
            absurd (cc)
      ]

  find_from-Nearest :
      (fuel : ℕ) (s : Text)
      → length s < fuel
      → (o : Option Text) × (find_from exists fuel (b'/' ∷ s) ≡ some o) × Nearest (b'/' ∷ s) o
  unfolding find_from
  find_from-Nearest zero s h = absurd (omega (arith, h))
  find_from-Nearest (suc fuel) s h = elim (Bool-cases (has_go_mod exists (b'/' ∷ s))) [
    | inl has ↦ (some (b'/' ∷ s), rw has refl, (0, refl, has, λ m k. absurd (omega (arith, k))))
    | inr lacks ↦ elim (Bool-cases (dir_of (b'/' ∷ s) == b'/' ∷ s)) [
      | inl top ↦ (
        none,
        rw (lacks, top) refl,
        all_above (b'/' ∷ s) ((eq_iff (dir_of (b'/' ∷ s)) (b'/' ∷ s)).0 top) lacks,
      )
      | inr moved ↦
          let (t, up, less) = shorter s moved in
          let (o, found, near) = find_from-Nearest fuel t (omega (arith, h, less)) in
          (
            o,
            rw (lacks, moved, up) found,
            Nearest-above (b'/' ∷ s) o lacks (subst (λ d. Nearest d o) (sym up) near),
          )
    ]
  ]

  -- From an absolute working directory the search ends, with the nearest directory upwards that has
  -- a go.mod, or with an error if none has one.
  pub find_repo_root-Nearest :
      (s : Text)
      → (o : Option Text) × (find_repo_root exists (some (b'/' ∷ s)) ≡ some o)
        × Nearest (b'/' ∷ s) o
  unfolding find_repo_root
  find_repo_root-Nearest s = find_from-Nearest (suc (length (b'/' ∷ s))) s (omega arith)

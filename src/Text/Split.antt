-- ===== src/Text/Split.antt =====
-- strings.SplitN at a separator of one character.
use headtotails.Prelude.{
  ℕ, zero, suc, ◌≡◌, refl, false, Option, none, some, List, [], ◌∷◌, ◌++◌, arith, nat_eq, All,
  if◌then◌else◌,
}
use headtotails.Text.{Text, codes}

-- The text before the first separator, and the text behind it.
put_first : ℕ → Option (Text × Text) → Option (Text × Text)
put_first c none = none
put_first c (some (a, b)) = some (c ∷ a, b)

cut : ℕ → Text → Option (Text × Text)
unfolding put_first
cut sep [] = none
cut sep (c ∷ s) = let rest = put_first c (cut sep s) in if nat_eq c sep then some ([], s) else rest

-- At most `n` parts; the last is the rest of the text, uncut.
unfoldable pub split_n : ℕ → ℕ → Text → List Text
unfolding cut
split_n sep zero s = []
split_n sep (suc zero) s = s ∷ []
split_n sep (suc (suc n)) s = elim (cut sep s) [
  | none ↦ s ∷ []
  | some (a, b) ↦ a ∷ split_n sep (suc n) b
]

abbrev pub Lacks : ℕ → Text → Type 0
Lacks sep = All (λ c. nat_eq c sep ≡ false)

cut-append : (sep : ℕ) (a b : Text) → Lacks sep a → cut sep (a ++ sep ∷ b) ≡ some (a, b)
unfolding cut
cut-append sep [] b h = ground arith
cut-append sep (c ∷ a) b (p, h) = ground (arith, cut-append sep a b h, p)

cut_of_Lacks : (sep : ℕ) (s : Text) → Lacks sep s → cut sep s ≡ none
unfolding cut
cut_of_Lacks sep [] h = refl
cut_of_Lacks sep (c ∷ s) (p, h) = ground (arith, cut_of_Lacks sep s h, p)

-- The first separator is where the text is cut in two.
pub split_n-append :
    (sep : ℕ) (a b : Text) → Lacks sep a → split_n sep 2 (a ++ sep ∷ b) ≡ a ∷ b ∷ []
unfolding split_n
split_n-append sep a b h = ground (arith, cut-append sep a b h)

pub split_n_of_Lacks : (sep : ℕ) (s : Text) → Lacks sep s → split_n sep 2 s ≡ s ∷ []
unfolding split_n
split_n_of_Lacks sep s h = ground (arith, cut_of_Lacks sep s h)

split_example : split_n b'.' 3 (codes "a.b.c.d") ≡ codes "a" ∷ codes "b" ∷ codes "c.d" ∷ []
unfolding split_n
split_example = refl

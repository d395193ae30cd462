-- ===== src/Text/Fold.antt =====
-- strings.EqualFold and strings.ToLower.
use headtotails.Prelude.{
  ℕ, ◌+◌, ◌≡◌, refl, Bool, true, ◌&&◌, [], ◌∷◌, map, arith, leb, ltb, if◌then◌else◌,
}
use headtotails.Text.{Text, codes, ◌==◌, eq_iff}

-- The lower case of an ASCII code point; any other is left alone.
abbrev pub lower : ℕ → ℕ
lower c = if leb b'A' c && leb c b'Z' then c + 32 else c

-- `strings.EqualFold(s, t)` for a `t` whose letters fold with ASCII letters alone, as those of
-- "bearer" do: only k and s have further code points in their orbits.
unfoldable pub equal_fold : Text → Text → Bool
equal_fold s t = map lower s == map lower t

-- `strings.ToLower`. The Unicode tables are a parameter: `other` is unicode.ToLower outside ASCII.
unfoldable pub to_lower : (ℕ → ℕ) → Text → Text
to_lower other = map (λ c. if ltb c 0x80 then lower c else other c)

pub map-lower_idem : (s : Text) → map lower (map lower s) ≡ map lower s
map-lower_idem [] = refl
map-lower_idem (c ∷ s) = ground (arith, map-lower_idem s)

pub equal_fold-iff_lower : (s t : Text) → map lower s ≡ map lower t → equal_fold s t ≡ true
unfolding equal_fold
equal_fold-iff_lower s t h = (eq_iff (map lower s) (map lower t)).1 h

fold_example : equal_fold (codes "BeaRER") (codes "bearer") ≡ true
unfolding equal_fold ◌==◌
fold_example = refl

-- ===== src/Text/Affix.antt =====
-- strings.HasPrefix, strings.HasSuffix and strings.Contains.
use headtotails.Prelude.{◌≡◌, refl, Bool, true, false, ◌&&◌, ◌||◌, [], ◌∷◌, ◌++◌, arith, nat_eq}
use headtotails.Text.{Text, ◌==◌, eq_refl}

unfoldable pub has_prefix : Text → Text → Bool
has_prefix s [] = true
has_prefix [] (d ∷ t) = false
has_prefix (c ∷ s) (d ∷ t) = nat_eq c d && has_prefix s t

unfoldable pub contains : Text → Text → Bool
unfolding has_prefix
contains [] t = has_prefix [] t
contains (c ∷ s) t = has_prefix (c ∷ s) t || contains s t

unfoldable pub has_suffix : Text → Text → Bool
has_suffix [] t = [] == t
has_suffix (c ∷ s) t = (c ∷ s) == t || has_suffix s t

pub has_prefix-append : (s t : Text) → has_prefix (t ++ s) t ≡ true
unfolding has_prefix
has_prefix-append s [] = refl
has_prefix-append s (d ∷ t) = ground (arith, has_prefix-append s t)

pub contains-append : (a t b : Text) → contains (a ++ t ++ b) t ≡ true
unfolding contains
contains-append [] [] [] = refl
contains-append [] [] (c ∷ b) = refl
contains-append [] (c ∷ t) b = ground (arith, has_prefix-append b (c ∷ t))
contains-append (c ∷ a) t b = ground (arith, contains-append a t b)

pub has_suffix_refl : (t : Text) → has_suffix t t ≡ true
unfolding has_suffix
has_suffix_refl [] = eq_refl []
has_suffix_refl (c ∷ t) = ground (arith, eq_refl (c ∷ t))

pub has_suffix-append : (s t : Text) → has_suffix (s ++ t) t ≡ true
unfolding has_suffix
has_suffix-append [] t = has_suffix_refl t
has_suffix-append (c ∷ s) t = ground (arith, has_suffix-append s t)

-- A suffix in front of which anything stands is a suffix still.
pub has_suffix-prepend : (a s t : Text) → has_suffix s t ≡ true → has_suffix (a ++ s) t ≡ true
unfolding has_suffix
has_suffix-prepend [] s t h = h
has_suffix-prepend (c ∷ a) s t h = ground (arith, has_suffix-prepend a s t h)

-- ===== src/Text/Space.antt =====
-- strings.TrimSpace.
use headtotails.Prelude.{
  ℕ, ◌≡◌, refl, ◌↔◌, Bool, true, false, ◌&&◌, ◌||◌, [], ◌∷◌, ◌++◌, arith, leb, nat_eq, All,
  if◌then◌else◌,
}
use headtotails.Text.{Text, codes}

-- unicode.IsSpace: the ASCII controls and the blank, and the code points with White_Space.
abbrev pub is_space : ℕ → Bool
is_space c =
    (leb 0x09 c && leb c 0x0d)
    || nat_eq c 0x20
    || nat_eq c 0x85
    || nat_eq c 0xa0
    || nat_eq c 0x1680
    || (leb 0x2000 c && leb c 0x200a)
    || nat_eq c 0x2028
    || nat_eq c 0x2029
    || nat_eq c 0x202f
    || nat_eq c 0x205f
    || nat_eq c 0x3000

trim_left : Text → Text
trim_left [] = []
trim_left (c ∷ s) = let rest = trim_left s in if is_space c then rest else c ∷ s

is_empty : Text → Bool
is_empty [] = true
is_empty (c ∷ s) = false

trim_right : Text → Text
trim_right [] = []
trim_right (c ∷ s) = let rest = trim_right s in if is_empty rest && is_space c then [] else c ∷ rest

unfoldable pub trim_space : Text → Text
unfolding trim_left trim_right is_empty
trim_space s = trim_right (trim_left s)

abbrev pub IsSpace : ℕ → Type 0
IsSpace c = is_space c ≡ true

abbrev pub NoSpace : ℕ → Type 0
NoSpace c = is_space c ≡ false

trim_left_of_NoSpace : (s : Text) → All NoSpace s → trim_left s ≡ s
unfolding trim_left
trim_left_of_NoSpace [] h = refl
trim_left_of_NoSpace (c ∷ s) h = ground (arith, h.0)

trim_right_of_NoSpace : (s : Text) → All NoSpace s → trim_right s ≡ s
unfolding trim_right
trim_right_of_NoSpace [] h = refl
trim_right_of_NoSpace (c ∷ s) (p, h) = ground (arith, trim_right_of_NoSpace s h, p)

-- A text without spaces is left as it is.
pub trim_space_of_NoSpace : (s : Text) → All NoSpace s → trim_space s ≡ s
unfolding trim_space
trim_space_of_NoSpace s h = ground (arith, trim_left_of_NoSpace s h, trim_right_of_NoSpace s h)

-- Spaces in front are dropped.
pub trim_space-append : (s t : Text) → All IsSpace s → trim_space (s ++ t) ≡ trim_space t
unfolding trim_space
trim_space-append [] t h = refl
trim_space-append (c ∷ s) t (p, h) = ground (arith, trim_space-append s t h, p)

-- A text is trimmed to nothing exactly when it is blank.
trim_left-eq-nil : (s : Text) → trim_left s ≡ [] → All IsSpace s
unfolding trim_left
trim_left-eq-nil [] h = tt
trim_left-eq-nil (c ∷ s) h = ground (arith, trim_left-eq-nil s)

trim_right-eq-nil : (s : Text) → trim_right s ≡ [] → All IsSpace s
unfolding trim_right is_empty
trim_right-eq-nil [] h = tt
trim_right-eq-nil (c ∷ s) h = ground (arith, trim_right-eq-nil s)

-- What is left of a text by `trim_left` is empty or begins with no space.
trim_left_blank : (s : Text) → All IsSpace (trim_left s) → All IsSpace s
unfolding trim_left
trim_left_blank [] h = tt
trim_left_blank (c ∷ s) h = ground (arith, trim_left_blank s, h)

trim_space-eq-nil : (s : Text) → trim_space s ≡ [] → All IsSpace s
unfolding trim_space
trim_space-eq-nil s h = trim_left_blank s (trim_right-eq-nil (trim_left s) h)

trim_left_of_IsSpace : (s : Text) → All IsSpace s → trim_left s ≡ []
unfolding trim_left
trim_left_of_IsSpace [] h = refl
trim_left_of_IsSpace (c ∷ s) (p, h) = ground (arith, trim_left_of_IsSpace s h, p)

trim_space_of_IsSpace : (s : Text) → All IsSpace s → trim_space s ≡ []
unfolding trim_space
trim_space_of_IsSpace s h = ground (arith, trim_left_of_IsSpace s h)

pub trim_space-eq-nil_iff : (s : Text) → (trim_space s ≡ []) ↔ All IsSpace s
trim_space-eq-nil_iff s = (trim_space-eq-nil s, trim_space_of_IsSpace s)

trim_example : trim_space (codes "  a b ") ≡ codes "a b"
unfolding trim_space
trim_example = refl

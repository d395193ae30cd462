-- ===== src/Text/Decimal/Defs.antt =====
-- Printing and parsing of uint64.
use headtotails.Prelude.{
  ℕ, zero, suc, ◌+◌, ◌-◌, ◌*◌, ◌/◌, ◌%◌, ◌^◌, ◌≡◌, refl, Bool, ◌&&◌, ◌||◌, Option, none, some, [],
  ◌∷◌, ◌++◌, ltb, leb, if◌then◌else◌,
}
use headtotails.Text.{Text, codes}

abbrev pub u64_mod : ℕ
u64_mod = 2 ^ 64

abbrev pub is_digit : ℕ → Bool
is_digit c = leb b'0' c && leb c b'9'

-- The digits of `n`, in at most `fuel` rounds.
unfoldable pub format_from : ℕ → ℕ → Text
format_from zero n = []
format_from (suc fuel) n =
    let more = format_from fuel (n / 10) ++ (b'0' + n % 10) ∷ [] in
    if ltb n 10 then (b'0' + n) ∷ [] else more

-- `fmt.Sprintf("%d", n)`.
unfoldable pub format : ℕ → Text
unfolding format_from
format n = format_from (suc n) n

-- The loop of `ParseUint`: `cutoff` is the least number whose tenfold does not fit, and the sum
-- wraps round.
unfoldable pub scan : Text → ℕ → Option ℕ
scan [] n = some n
scan (c ∷ s) n =
    let n10 = n * 10 in
    let n1 = (n10 + (c - b'0')) % u64_mod in
    let rest = scan s n1 in
    if is_digit c then if leb ((u64_mod - 1) / 10 + 1) n || ltb n1 n10 then none else rest else none

-- `strconv.ParseUint(s, 10, 64)`; every error is `none`.
unfoldable pub parse_uint : Text → Option ℕ
unfolding scan
parse_uint [] = none
parse_uint (c ∷ s) = scan (c ∷ s) 0

print_max : format (u64_mod - 1) ≡ codes "18446744073709551615"
unfolding format
print_max = refl

parse_tests :
    (parse_uint (codes "18446744073709551615") ≡ some (u64_mod - 1))
    × (parse_uint (codes "18446744073709551616") ≡ none)
    × (parse_uint (codes "007") ≡ some 7)
    × (parse_uint (codes "+7") ≡ none)
unfolding parse_uint
parse_tests = (refl, refl, refl, refl)

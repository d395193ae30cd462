-- ===== src/Text/Decimal/RoundTrip.antt =====
-- `ParseUint` on what `%d` prints.
use headtotails.Prelude.{
  ℕ, zero, suc, ◌+◌, ◌-◌, ◌*◌, ◌/◌, ◌%◌, ◌<◌, ◌≤◌, ◌≡◌, refl, ◌≢◌, ◌↔◌, true, some, [], ◌∷◌, arith,
  All, ap, sym, ◌∙◌, inl, inr, All-append, Bool-cases, ltb,
}
use mathlib.Core.List.{foldl, foldl-append, cons-ne-nil, concat-ne-nil}
use headtotails.Text.{Text}
use headtotails.Text.Decimal.Defs.{u64_mod, is_digit, format_from, format, scan, parse_uint}

abbrev pub IsDigit : ℕ → Type 0
IsDigit c = is_digit c ≡ true

-- The number that digits spell behind `n`, without a bound.
abbrev pub value : ℕ → Text → ℕ
value = foldl (λ n c. n * 10 + (c - b'0'))

le-value : (s : Text) (n : ℕ) → n ≤ value n s
le-value [] n = omega arith
le-value (c ∷ s) n = omega (arith, le-value s (n * 10 + (c - b'0')))

scan_sound :
    (s : Text) (n r : ℕ)
    → n < u64_mod
    → scan s n ≡ some r
    → All IsDigit s × (value n s ≡ r) × (r < u64_mod)
unfolding scan
scan_sound [] n r h e = ground arith
scan_sound (c ∷ s) n r h e = ground (arith, scan_sound s (n * 10 + (c - b'0')) r)

scan_complete :
    (s : Text) (n : ℕ) → All IsDigit s → value n s < u64_mod → scan s n ≡ some (value n s)
unfolding scan
scan_complete [] n h fits = refl
scan_complete (c ∷ s) n (p, h) fits =
    let m = n * 10 + (c - b'0') in ground (arith, scan_complete s m h fits, le-value s m, p)

-- Exactly the nonempty texts of digits that spell a uint64 are accepted, with their true value.
pub parse_uint_iff :
    (s : Text) (n : ℕ)
    → (parse_uint s ≡ some n) ↔ ((s ≢ []) × All IsDigit s × (value 0 s ≡ n) × (n < u64_mod))
unfolding parse_uint
parse_uint_iff [] n = (λ e. cc, λ h. absurd (h.0 refl))
parse_uint_iff (c ∷ s) n = (
  λ e.
      let (digits, exact, fits) = scan_sound (c ∷ s) 0 n (omega arith) e in
      (cons-ne-nil c s, digits, exact, fits),
  λ h. scan_complete (c ∷ s) 0 h.1 (rw h.2 h.3) ∙ ap some h.2,
)

format_from-ne-nil : (fuel n : ℕ) → n < fuel → format_from fuel n ≢ []
unfolding format_from
format_from-ne-nil zero n h = absurd (omega arith)
format_from-ne-nil (suc fuel) n h =
    ground (arith, concat-ne-nil (b'0' + n % 10) (format_from fuel (n / 10)))

format_from-IsDigit : (fuel n : ℕ) → All IsDigit (format_from fuel n)
unfolding format_from
format_from-IsDigit zero n = tt
format_from-IsDigit (suc fuel) n = elim (Bool-cases (ltb n 10)) [
  | inl small ↦ rw small (ground arith, tt)
  | inr large ↦ rw large (
      All-append IsDigit (format_from fuel (n / 10)) _ (format_from-IsDigit fuel (n / 10))
        (ground arith, tt))
]

value-format_from : (fuel n : ℕ) → n < fuel → value 0 (format_from fuel n) ≡ n
unfolding format_from
value-format_from zero n h = absurd (omega arith)
value-format_from (suc fuel) n h = elim (Bool-cases (ltb n 10)) [
  | inl small ↦ rw small (ground arith)
  | inr large ↦
      rw large
        (rw foldl-append (rw (value-format_from fuel (n / 10) (ground arith)) (ground arith)))
]

-- Every uint64 is read back from its decimal print.
pub parse_uint-format : (n : ℕ) → n < u64_mod → parse_uint (format n) ≡ some n
unfolding format
parse_uint-format n h = (parse_uint_iff (format n) n).1 (
  format_from-ne-nil (suc n) n (omega arith),
  format_from-IsDigit (suc n) n,
  value-format_from (suc n) n (omega arith),
  h,
)

-- Two numbers with one print are equal.
pub format_inj : (m n : ℕ) → format m ≡ format n → m ≡ n
unfolding format
format_inj m n h =
    sym (value-format_from (suc m) m (omega arith))
    ∙ ap (value 0) h
    ∙ value-format_from (suc n) n (omega arith)

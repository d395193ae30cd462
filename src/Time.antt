-- ===== src/Time.antt =====
-- Package time, as far as the source uses it. An instant is the number of nanoseconds since
-- 0001-01-01T00:00:00Z, the zero `Time`; it is printed in UTC.
use headtotails.Prelude.{
  ℕ, ◌+◌, ◌-◌, ◌*◌, ◌/◌, ◌%◌, ◌^◌, ◌<◌, ◌≡◌, refl, Bool, ◌&&◌, ◌||◌, not, List, [], ◌∷◌, ◌++◌, min,
  arith, ltb, nat_eq, if◌then◌else◌,
}
use headtotails.Text.{Text, codes}

abbrev pub Time : Type 0
Time = ℕ

abbrev pub second : ℕ
second = 1000000000

abbrev pub hour : ℕ
hour = 3600 * second

-- `t.After(u)`.
abbrev pub after : Time → Time → Bool
after t u = ltb u t

abbrev pub is_zero : Time → Bool
is_zero t = nat_eq t 0

-- `time.Duration(n) * time.Second` for an int64 `n` that is not negative: the 64 bits of the
-- product.
unfoldable pub seconds : ℕ → ℕ
seconds n = (n * second) % 2 ^ 64

-- `t.Add(d)`, `d` given by its 64 bits. An instant before year 1 is held at its beginning.
unfoldable pub add : Time → ℕ → Time
add t d = if ltb d (2 ^ 63) then t + d else t - (2 ^ 64 - d)

-- A duration of at most 9223372036 seconds does not wrap round.
pub add-seconds : (t : Time) (n : ℕ) → n < 9223372037 → add t (seconds n) ≡ t + n * second
unfolding add seconds
add-seconds t n h = ground arith

-- At 9223372037 seconds the product is negative, up to where it has wrapped round once.
pub add-seconds_wraps :
    (t : Time) (n : ℕ)
    → 9223372036 < n
    → n < 18446744074
    → add t (seconds n) ≡ t - (2 ^ 64 - n * second)
unfolding add seconds
add-seconds_wraps t n h k = ground arith

is_leap : ℕ → Bool
is_leap y = nat_eq (y % 4) 0 && (not (nat_eq (y % 100) 0) || nat_eq (y % 400) 0)

abbrev month_days : Bool → List ℕ
month_days leap =
    31 ∷ (if leap then 29 else 28) ∷ 31 ∷ 30 ∷ 31 ∷ 30 ∷ 31 ∷ 31 ∷ 30 ∷ 31 ∷ 30 ∷ 31 ∷ []

-- The month and the day, both from 1, of a day of the year, from 0.
month_of : ℕ → ℕ → List ℕ → ℕ × ℕ
month_of m d [] = (m, d + 1)
month_of m d (n ∷ ns) =
    let rest = month_of (m + 1) (d - n) ns in if ltb d n then (m, d + 1) else rest

-- The year and the day in it of a day since 0001-01-01: cycles of 400, 100, 4 years and one.
year_of : ℕ → ℕ × ℕ
year_of day =
    let n400 = day / 146097 in
    let d400 = day % 146097 in
    let n100 = min 3 (d400 / 36524) in
    let d100 = d400 - n100 * 36524 in
    let n4 = d100 / 1461 in
    let d4 = d100 % 1461 in
    let n1 = min 3 (d4 / 365) in (400 * n400 + 100 * n100 + 4 * n4 + n1 + 1, d4 - n1 * 365)

two : ℕ → Text
two n = (b'0' + n / 10 % 10) ∷ (b'0' + n % 10) ∷ []

-- `t.Format(time.RFC3339)` in UTC, for years up to 9999, the range of a protobuf timestamp.
unfoldable pub rfc3339 : Time → Text
unfolding is_leap month_of year_of two
rfc3339 t =
    let secs = t / second in
    let (y, yd) = year_of (secs / 86400) in
    let (m, d) = month_of 1 yd (month_days (is_leap y)) in
    let s = secs % 86400 in
    two (y / 100)
    ++ two y
    ++ b'-' ∷ two m
    ++ b'-' ∷ two d
    ++ b'T' ∷ two (s / 3600)
    ++ b':' ∷ two (s / 60 % 60)
    ++ b':' ∷ two (s % 60)
    ++ b'Z' ∷ []

-- 1709210096 seconds after 1970-01-01, which is 62135596800 seconds after the zero time.
leap_day : rfc3339 ((62135596800 + 1709210096) * second) ≡ codes "2024-02-29T12:34:56Z"
unfolding rfc3339
leap_day = refl

first_day : rfc3339 0 ≡ codes "0001-01-01T00:00:00Z"
unfolding rfc3339
first_day = refl

year_end : rfc3339 ((62135596800 + 978307199) * second) ≡ codes "2000-12-31T23:59:59Z"
unfolding rfc3339
year_end = refl

-- ===== src/Haic/Waiting.antt =====
-- `WaitForRunning`: /healthz is asked every half second, for a minute.
use headtotails.Prelude.{
  ℕ, zero, suc, ◌+◌, ◌*◌, ◌/◌, ◌≤◌, ◌<◌, ◌≡◌, refl, subst, ◌↔◌, inl, inr, Bool, true, false,
  Bool-cases, Option, none, some, arith, ltb, ltb→lt, nat_eq, if◌then◌else◌,
}
use headtotails.Time.{Time, second}

-- The answer to one request: its status if there is one, and the time from one request to the
-- next, less the half second of the sleep.
pub record Poll : Type 0 where
  pub status : Option ℕ
  pub took : Time

abbrev pub is_ok : Option ℕ → Bool
is_ok none = false
is_ok (some status) = nat_eq status 200

abbrev pause : Time
pause = second / 2

module _ (polls : ℕ → Poll) where
  -- Rounds from the i-th on: `none` means that the fuel was used up, `some false` is the error.
  unfoldable pub poll_from : ℕ → Time → Time → ℕ → Option Bool
  poll_from zero deadline now i = none
  poll_from (suc fuel) deadline now i =
      let rest = poll_from fuel deadline (now + (polls i).took + pause) (suc i) in
      if ltb now deadline then if is_ok (polls i).status then some true else rest else some false

  -- 120 rounds of half a second, and the test that ends the loop.
  unfoldable pub wait_for_running : Time → Option Bool
  unfolding poll_from
  wait_for_running now = poll_from 121 (now + 60 * second) now 0

  -- When the n-th round from the i-th on starts.
  abbrev pub round_start : ℕ → ℕ → Time → Time
  round_start zero i now = now
  round_start (suc n) i now = round_start n (suc i) (now + (polls i).took + pause)

  -- Some round before the deadline finds the service healthy.
  abbrev pub Healthy : Time → Time → ℕ → Type 0
  Healthy deadline now i =
      (n : ℕ) × (round_start n i now < deadline) × (is_ok (polls (i + n)).status ≡ true)

  round_start-after : (n i : ℕ) (now : Time) → now ≤ round_start n i now
  round_start-after zero i now = omega arith
  round_start-after (suc n) i now =
      omega (arith, round_start-after n (suc i) (now + (polls i).took + pause))

  abbrev next : Time → ℕ → Time
  next now i = now + (polls i).took + pause

  abbrev IsUp : ℕ → Type 0
  IsUp k = is_ok (polls k).status ≡ true

  IsUp-along : (j k : ℕ) → j ≡ k → IsUp j → IsUp k
  IsUp-along j k e up = subst IsUp e up

  -- The first round is not healthy.
  Healthy-later :
      (deadline now : Time) (i : ℕ)
      → is_ok (polls i).status ≡ false
      → Healthy deadline now i ↔ Healthy deadline (next now i) (suc i)
  Healthy-later deadline now i bad =
      (later, λ (n, l, k). (suc n, l, IsUp-along (suc i + n) (i + suc n) (omega arith) k))
    where
      later : Healthy deadline now i → Healthy deadline (next now i) (suc i)
      later (zero, l, k) = let up = IsUp-along (i + 0) i (omega arith) k in absurd (cc)
      later (suc n, l, k) = (n, l, IsUp-along (i + suc n) (suc i + n) (omega arith) k)

  expired : (deadline now : Time) (i : ℕ) → deadline ≤ now → Healthy deadline now i → ⊥
  expired deadline now i h (n, l, k) = omega (arith, h, l, round_start-after n i now)

  poll_from-Healthy :
      (fuel : ℕ) (deadline now : Time) (i : ℕ)
      → deadline ≤ now + fuel * pause
      → (b : Bool) × (poll_from (suc fuel) deadline now i ≡ some b)
        × ((b ≡ true) ↔ Healthy deadline now i)
  unfolding poll_from
  poll_from-Healthy zero deadline now i h = (
    false,
    ground (arith, h),
    (λ e. absurd (cc), λ k. absurd (expired deadline now i (omega (arith, h)) k)),
  )
  poll_from-Healthy (suc fuel) deadline now i h = elim (Bool-cases (ltb now deadline)) [
    | inl early ↦ elim (Bool-cases (is_ok (polls i).status)) [
      | inl good ↦ (
        true,
        rw (early, good) refl,
        (λ e. (0, ltb→lt now deadline early, IsUp-along i (i + 0) (omega arith) good), λ e. refl),
      )
      | inr bad ↦
          let (b, e, iff) =
            poll_from-Healthy fuel deadline (next now i) (suc i) (omega (arith, h)) in
          let step = Healthy-later deadline now i bad in
          (b, rw (early, bad) e, (λ t. step.1 (iff.0 t), λ k. iff.1 (step.0 k)))
    ]
    | inr late ↦ (
      false,
      rw late refl,
      (λ e. absurd (cc), λ k. absurd (expired deadline now i (ground (arith, late)) k)),
    )
  ]

  -- The wait ends, with success just if the service answers 200 in one of the rounds that start in
  -- the minute; 121 tests of the clock are enough, however long the answers take.
  pub wait_for_running-Healthy :
      (now : Time)
      → (b : Bool) × (wait_for_running now ≡ some b)
        × ((b ≡ true) ↔ Healthy (now + 60 * second) now 0)
  unfolding wait_for_running
  wait_for_running-Healthy now = poll_from-Healthy 120 (now + 60 * second) now 0 (omega arith)

-- ===== src/Main/Shutdown.antt =====
-- cmd/headtotails/main.go, from where the server listens: the goroutine that serves, the wait for
-- a signal, and the shutdown. The two run side by side: a step is of the one or the other.
use headtotails.Prelude.{
  ℕ, zero, suc, ◌≡◌, refl, ◌⊎◌, inl, inr, List, [], ◌∷◌, Among, Bool, true, false,
}

-- Where `main` stands: it waits for a signal, it waits for Shutdown, or the process has ended.
pub data Phase : Type 0 where
  waiting stopping : Phase
  ended : ℕ → Phase

-- `serves` is whether the goroutine still serves; it ends silently on http.ErrServerClosed.
pub record Process : Type 0 where
  pub phase : Phase
  pub serves : Bool

-- What happens to the process: ListenAndServe returns an error of its own or ErrServerClosed, a
-- SIGTERM or SIGINT arrives, and Shutdown returns with or without an error: an error also where the
-- 30 seconds of its context are over, which are not modelled as a time.
pub data Happening : Type 0 where
  serve_failed serve_closed signalled shut_down shutdown_failed : Happening

pub data Step : Process → Happening → Process → Type 0 where
  fail :
      {p : Phase}
      → p ≡ waiting ⊎ p ≡ stopping
      → Step
          (record { phase = p; serves = true })
          serve_failed
          (record { phase = ended 1; serves = false })
  close :
      Step
        (record { phase = stopping; serves = true })
        serve_closed
        (record { phase = stopping; serves = false })
  stop :
      {b : Bool}
      → Step
          (record { phase = waiting; serves = b })
          signalled
          (record { phase = stopping; serves = b })
  finish :
      {b : Bool}
      → Step
          (record { phase = stopping; serves = b })
          shut_down
          (record { phase = ended 0; serves = false })
  give_up :
      {b : Bool}
      → Step
          (record { phase = stopping; serves = b })
          shutdown_failed
          (record { phase = ended 1; serves = false })

abbrev pub launched : Process
launched = record { phase = waiting; serves = true }

-- The happenings of a run, the last first.
pub data Run : List Happening → Process → Type 0 where
  start : Run [] launched
  later :
      {hs : List Happening} {p q : Process} {h : Happening} → Run hs p → Step p h q → Run (h ∷ hs) q

-- What must have happened for the process to stand there.
abbrev pub Explains : List Happening → Phase → Type 0
Explains hs waiting = hs ≡ []
Explains hs stopping = Among signalled hs
Explains hs (ended zero) = Among signalled hs × Among shut_down hs
Explains hs (ended (suc n)) =
    (n ≡ 0) × (Among serve_failed hs ⊎ (Among signalled hs × Among shutdown_failed hs))

Step-Explains :
    {p q : Process} {h : Happening} (hs : List Happening)
    → Explains hs p.phase
    → Step p h q
    → Explains (h ∷ hs) q.phase
Step-Explains hs e (fail _) = (refl, inl (inl refl))
Step-Explains hs e close = inr e
Step-Explains hs e stop = inl refl
Step-Explains hs e finish = (inr e, inl refl)
Step-Explains hs e give_up = (refl, inr (inr e, inl refl))

-- The process exits with status 0 only after a signal and a clean shutdown, and with no other
-- status than 1, after the server failed or after a signal and a shutdown that failed; it stops
-- only on a signal.
pub Run-Explains : {hs : List Happening} {p : Process} → Run hs p → Explains hs p.phase
Run-Explains start = refl
Run-Explains (later {hs} r st) = Step-Explains hs (Run-Explains r) st

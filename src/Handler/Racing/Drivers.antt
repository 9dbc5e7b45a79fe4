-- ===== src/Handler/Racing/Drivers.antt =====
-- src/workserver/work_handler.cpp: "The thread pool size is the same as the driver count. As a
-- result, we know that a driver will be available whenever the pool handler is called."
use pow_server.Prelude.{
  ℕ, zero, suc, ◌+◌, ◌≤◌, ◌<◌, ◌≡◌, inl, inr, ap, List, [], ◌∷◌, ◌++◌, Error, some, err, ltb,
  if◌then◌else◌, length, length-append, arith, true,
}
use pow_server.Config.{Config}
use pow_server.Devices.Acquire.{aquire-Takes}
use pow_server.Devices.Busy.{busy_at, busy_at-all, busy_at-le_one, busy_at-marked}
use pow_server.Job.{Job, start}
use pow_server.Handler.{Libraries, Handler}
use pow_server.Handler.Accounting.{tally, tally-append}
use pow_server.Handler.Racing.{Racing}
use pow_server.Handler.Racing.Cases.{length-split, find_driver-cases}
use pow_server.Handler.Racing.Held.{device_of, holders, Reach-IsHeld}
use pow_server.Handler.Racing.Settled.{Reach-IsRacing}
use pow_server.Handler.Racing.Steps.{Reach}
use pow_server.Handler.Stages.{Popped, find_driver}
use pow_server.Handler.Task.{work_result}

module _ {A : Type 0} (f : A → ℕ) where
  below : ℕ → List A → ℕ
  below n [] = 0
  below n (x ∷ xs) = (if ltb (f x) n then 1 else 0) + below n xs

  below-le : (n : ℕ) (xs : List A) → below n xs ≤ length xs
  unfolding below
  below-le n [] = omega arith
  below-le n (x ∷ xs) = ground (arith, below-le n xs)

  below-suc : (n : ℕ) (xs : List A) → below (suc n) xs ≡ below n xs + tally f n xs
  unfolding below
  below-suc n [] = omega arith
  below-suc n (x ∷ xs) = ground (arith, below-suc n xs)

  all-below : (n : ℕ) (xs : List A) → ((i : ℕ) → i < n → 1 ≤ tally f i xs) → n ≤ below n xs
  all-below zero xs every = omega arith
  all-below (suc n) xs every = omega (
    arith,
    below-suc n xs,
    all-below n xs (λ i inside. every i (omega arith)),
    every n (omega arith),
  )

  -- A list with an entry for each number below `n` has at least `n` entries.
  pigeonhole : (n : ℕ) (xs : List A) → ((i : ℕ) → i < n → 1 ≤ tally f i xs) → n ≤ length xs
  pigeonhole n xs every = omega (arith, all-below n xs every, below-le n xs)

module _ {Double Float Tree : Type 0} (lib : Libraries Double Float Tree) (config : Config) where
  -- While no work throws, however the threads take turns: a lambda that has popped a job finds a
  -- device, one of those configured that no lambda holds, answers nothing yet and starts the job.
  pub driver_available :
      {s : Racing Double} (now : ℕ) (before : List (Popped Double)) (p : Popped Double)
      (after : List (Popped Double))
      → ((j : Job Double) (e : Error) → work_result lib config j ≡ err e → ⊥)
      → Reach lib config s
      → s.popped ≡ before ++ p ∷ after
      → (i : ℕ) × (h : Handler Double) × (i < length config.devices)
        × (holders s i ≡ 0)
        × (find_driver lib config now p s.system.handler
            ≡ (h, [], some (record { task = p.task; device = i; job = start now p.job })))
  driver_available {s} now before p after never_throws r split =
      let v = Reach-IsHeld lib config never_throws r in
      let working = (Reach-IsRacing lib config r).working in
      let waiting = length-split before p after split in
      elim (aquire-Takes s.system.handler.devices) [
        | inl (all, busy) ↦
            let held = s.armed ++ (s.system.running ++ s.answered) in
            let whole : (i : ℕ) → tally device_of i held ≡ holders s i = λ i. omega (
              arith,
              tally-append device_of i s.armed (s.system.running ++ s.answered),
              tally-append device_of i s.system.running s.answered,
            ) in
            let enough = pigeonhole device_of (length s.system.handler.devices) held (λ i inside.
              omega
                (arith, whole i, v.held i, busy_at-all s.system.handler.devices i all inside)) in
            absurd (
              omega (
                arith,
                enough,
                v.registered,
                working,
                waiting,
                length-append s.armed (s.system.running ++ s.answered),
                length-append s.system.running s.answered,
              ))
        | inr (ahead, d, behind, ahead_split, busy, free, found) ↦
            let devices = ap length ahead_split in
            let marked = ahead ++ record d { busy = true } ∷ behind in
            let place = ap (λ ds. busy_at ds (0 + length ahead)) ahead_split in
            elim (find_driver-cases lib config now p s.system.handler) [
              | inl (e, missing, outcome) ↦ absurd (ground arith)
              | inr (i, one, outcome) ↦
                  let first : i ≡ 0 + length ahead = ground arith in
                  (
                    i,
                    _,
                    omega (arith, v.registered, devices, length-append ahead (d ∷ behind)),
                    rw first (
                        ground (
                          arith,
                          v.held (0 + length ahead),
                          place,
                          busy_at-marked ahead d behind (0 + length ahead) free,
                          busy_at-le_one marked (0 + length ahead),
                        )),
                    outcome,
                  )
            ]
      ]
